-- ===== src/Log/Ring.antt =====
-- The ring of log.rs holds the last lines that were pushed.
use rystemd.Prelude.{
  inl, inr, ℕ, zero, suc, ◌-◌, ◌≤◌, ◌<◌, ◌≡◌, refl, sym, ap, ◌∙◌, true, List, [], ◌∷◌, ◌++◌, arith,
  leb, ◌==◌, if◌then◌else◌, Bool-cases, length, drop, length-append, Text, map, split_inclusive,
  on_first,
}
use mathlib.Core.List.{append-nil, append_assoc, flatten}
use rystemd.Log.{pop_front, push, trim_newlines, push_all, push_chunk, snapshot}

-- The last `n` of the lines.
abbrev pub last : ℕ → List Text → List Text
last n ls = drop (length ls - n) ls

drop-append_snoc :
    (n : ℕ) (ls : List Text) (x : Text)
    → n ≤ length ls
    → drop n (ls ++ x ∷ []) ≡ drop n ls ++ x ∷ []
drop-append_snoc zero ls x h = refl
drop-append_snoc (suc n) [] x h = absurd (omega arith)
drop-append_snoc (suc n) (l ∷ ls) x h = drop-append_snoc n ls x (omega arith)

pop_front-drop : (n : ℕ) (ls : List Text) → pop_front (drop n ls) ≡ drop (suc n) ls
pop_front-drop zero [] = refl
pop_front-drop zero (l ∷ ls) = refl
pop_front-drop (suc n) [] = refl
pop_front-drop (suc n) (l ∷ ls) = pop_front-drop n ls

length-drop : (n : ℕ) (ls : List Text) → length (drop n ls) ≡ length ls - n
length-drop zero ls = omega arith
length-drop (suc n) [] = omega arith
length-drop (suc n) (l ∷ ls) = omega (arith, length-drop n ls)

drop_all : (n : ℕ) (ls : List Text) → length ls ≤ n → drop n ls ≡ []
drop_all zero [] h = refl
drop_all zero (l ∷ ls) h = absurd (omega arith)
drop_all (suc n) [] h = refl
drop_all (suc n) (l ∷ ls) h = drop_all n ls (omega arith)

-- The lines that a push leaves, where the ring has room for one at least.
pushed_lines :
    (m : ℕ) (ls : List Text) (x : Text)
    → 0 < m
    → (if leb m (length (last m ls)) then pop_front (last m ls) else last m ls) ++ x ∷ []
      ≡ last m (ls ++ x ∷ [])
pushed_lines m ls x h = elim (Bool-cases (leb m (length ls))) [
  | inl full ↦
      let k = length ls - m in
      let kept : leb m (length (last m ls)) ≡ true =
        ground (arith, length-drop (length ls - m) ls) in
      let next : length (ls ++ x ∷ []) - m ≡ suc (length ls - m) =
        ground (arith, length-append ls (x ∷ [])) in
      rw (kept, pop_front-drop (length ls - m) ls, next)
        (sym (drop-append_snoc (suc (length ls - m)) ls x (ground arith)))
  | inr room ↦
      let first : length ls - m ≡ 0 = ground arith in
      let next : length (ls ++ x ∷ []) - m ≡ 0 = ground (arith, length-append ls (x ∷ [])) in
      rw (first, next, room)
]

push-last :
    (m : ℕ) (ls : List Text) (x : Text)
    → push x (record { max_lines = m; lines = last m ls })
      ≡ record { max_lines = m; lines = last m (ls ++ x ∷ []) }
unfolding push
push-last m ls x = elim (Bool-cases (m == 0)) [
  | inl e ↦ rw e (λ i. record {
    max_lines = m;
    lines =
        (drop_all (length ls - m) ls (ground arith)
            ∙ sym (drop_all (length (ls ++ x ∷ []) - m) (ls ++ x ∷ []) (ground arith)))
          i;
  })
  | inr e ↦ rw e (λ i. record { max_lines = m; lines = pushed_lines m ls x (ground arith) i })
]

push_all_from :
    (m : ℕ) (old ls : List Text)
    → push_all ls (record { max_lines = m; lines = last m old })
      ≡ record { max_lines = m; lines = last m (old ++ map trim_newlines ls) }
unfolding push_all
push_all_from m old [] = rw append-nil
push_all_from m old (l ∷ ls) =
    rw (push-last m old (trim_newlines l), push_all_from m (old ++ trim_newlines l ∷ []) ls)
      (simp append_assoc)

split_inclusive_cons : (c : ℕ) (ls : List Text) → flatten (on_first c ls) ≡ c ∷ flatten ls
unfolding flatten
split_inclusive_cons c [] = refl
split_inclusive_cons c (l ∷ ls) = refl

flatten-split_inclusive : (s : Text) → flatten (split_inclusive s) ≡ s
unfolding split_inclusive flatten
flatten-split_inclusive [] = refl
flatten-split_inclusive (c ∷ s) =
    ground (arith, flatten-split_inclusive s, split_inclusive_cons c (split_inclusive s))

-- Whatever chunk is pushed on a ring that holds the last lines of some history, the ring then holds the
-- last `max_lines` lines of that history and the pieces of the chunk without their newlines, and the
-- pieces put together are the chunk.
pub push_chunk-last :
    (m : ℕ) (old : List Text) (chunk : Text)
    → (snapshot (push_chunk chunk (record { max_lines = m; lines = last m old }))
        ≡ last m (old ++ map trim_newlines (split_inclusive chunk)))
      × (flatten (split_inclusive chunk) ≡ chunk)
unfolding snapshot push_chunk
push_chunk-last m old chunk =
    (ap (λ r. r.lines) (push_all_from m old (split_inclusive chunk)), flatten-split_inclusive chunk)
