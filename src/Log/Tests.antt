-- ===== src/Log/Tests.antt =====
-- A ring of two lines, on which log.rs is run.
use rystemd.Prelude.{◌≡◌, [], ◌∷◌, ◌++◌, Text, codes, map, split_inclusive}
use mathlib.Core.List.{List, flatten}
use rystemd.Log.{trim_newlines, push_chunk, snapshot}
use rystemd.Log.Ring.{last, push_chunk-last}

abbrev old : List Text
old = codes "a" ∷ codes "b" ∷ codes "c" ∷ []

push_chunk-last_example :
    (snapshot (push_chunk (codes "d\ne") (record { max_lines = 2; lines = last 2 old }))
      ≡ last 2 (old ++ map trim_newlines (split_inclusive (codes "d\ne"))))
    × (flatten (split_inclusive (codes "d\ne")) ≡ codes "d\ne")
push_chunk-last_example = push_chunk-last 2 old (codes "d\ne")
