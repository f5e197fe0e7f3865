-- ===== src/Agent/History/Tests.antt =====
-- A short stored conversation.
use inkstave.Prelude.{Bool, true, Option, none, some, List, [], ◌∷◌, String, Text, codes}
use inkstave.Agent.Handlers.{Env}
use inkstave.Agent.History.{WireMessage, WireDiffSummary}

abbrev env : Env
env = record { translate = λ key. []; show_number = λ n. "n" }

abbrev parse : Text → Option (Bool × Option String)
parse text = some (true, none)

abbrev messages : List WireMessage
messages =
    record {
      id = "1";
      role = "user";
      content = some (codes "hi");
      tool_call_id = none;
      tool_calls = [];
    }
    ∷ record {
      id = "2";
      role = "assistant";
      content = none;
      tool_call_id = none;
      tool_calls = record { id = "c"; name = "search"; arguments = "" } ∷ [];
    }
    ∷ record {
      id = "3";
      role = "tool";
      content = some (codes "{}");
      tool_call_id = some "c";
      tool_calls = [];
    }
    ∷ []

abbrev diffs : List WireDiffSummary
diffs = record { id = "d"; path = "main.tex"; status = "proposed"; hunk_count = some 2 } ∷ []
