-- ===== src/Crdt/Tests.antt =====
-- Edits of a shared text that is a plain text.
use inkstave.Prelude.{◌≡◌, codes}
use inkstave.Crdt.{plain_text}
use inkstave.Crdt.Apply.{apply_target_to_ytext}
use inkstave.Crdt.Apply.Laws.{to_string-apply_target_to_ytext}

to_string-apply_target_to_ytext_example :
    apply_target_to_ytext plain_text (codes "abc") (codes "axc") ≡ codes "axc"
to_string-apply_target_to_ytext_example =
    to_string-apply_target_to_ytext plain_text (codes "abc") (codes "axc")
