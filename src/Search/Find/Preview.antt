-- ===== src/Search/Find/Preview.antt =====
-- find.ts, `previewOf`: a match in its line, cut around it. `trimStart` of a string is a parameter.
use inkstave.Prelude.{
  ℕ, ◌+◌, ◌-◌, ◌≡◌, refl, min, [], ◌++◌, if◌then◌else◌, ltb, length, slice, Text, codes,
}
use inkstave.Search.Find.{TextMatch}

abbrev preview_before : ℕ
preview_before = 30

abbrev preview_after : ℕ
preview_after = 80

pub record MatchPreview : Type 0 where
  pub before : Text
  pub matched : Text
  pub after : Text

unfoldable pub preview_of : (Text → Text) → TextMatch → MatchPreview
preview_of trim_start m =
    let line = m.line_text in
    let end = min (m.column + length m.text) (length line) in
    let start = m.column - preview_before in
    record {
      before = (if ltb 0 start then codes "…" else []) ++ trim_start (slice start m.column line);
      matched = slice m.column end line;
      after = slice end (end + preview_after) line;
    }

-- A match that runs past its line shows its first line only.
preview_run :
    preview_of
      (λ t. t)
      (record {
        from = 2;
        to = 6;
        line = 1;
        column = 2;
        text = codes "cd\nx";
        groups = [];
        named = [];
        line_text = codes "abcd";
      })
    ≡ record { before = codes "ab"; matched = codes "cd"; after = [] }
unfolding preview_of
preview_run = refl
