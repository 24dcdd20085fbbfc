-- ===== src/Logs/Laws.antt =====
-- The pages of the logs of a build.
use e2b_local.Prelude.{
  ℕ, suc, ◌+◌, ◌≤◌, String, ◌≡◌, refl, sym, ap, Bool, true, false, Option, none, some, List, [],
  ◌∷◌, ◌++◌, arith, leb, length, take, drop, length-append, length-take, take-append-drop,
  append_empty, append_assoc, take_all, drop_all, drop-drop, if◌then◌else◌, nat_beq, Bool-cases,
  inl, inr,
}
use e2b_local.Prelude.Int.{ℤ, pos}
use e2b_local.Logs.{
  BuildLogEntry, filter_build_logs, offset_build_logs, limit_build_logs, cursor_build_logs,
  reverse_build_logs, info_logs, response_logs,
}

offset_lem :
    (logs : List BuildLogEntry) (n : ℕ) → offset_build_logs logs (some (pos n)) ≡ drop n logs
unfolding offset_build_logs
offset_lem logs n = elim (Bool-cases (leb (length logs) n)) [
  | inl e ↦ rw e (sym (drop_all n logs (ground (arith, e))))
  | inr e ↦ rw e refl
]

limit_lem :
    (logs : List BuildLogEntry) (n : ℕ)
    → limit_build_logs logs (some (pos (suc n))) ≡ take (suc n) logs
unfolding limit_build_logs
limit_lem logs n = elim (Bool-cases (leb (length logs) (suc n))) [
  | inl e ↦
      let whole : length logs ≤ suc n = ground (arith, e) in
      let positive : nat_beq (suc n) 0 ≡ false = ground arith in
      rw (positive, e) (sym (take_all (suc n) logs whole))
  | inr e ↦ let positive : nat_beq (suc n) 0 ≡ false = ground arith in rw (positive, e) refl
]

no_limit : (logs : List BuildLogEntry) → limit_build_logs logs none ≡ logs
unfolding limit_build_logs
no_limit logs = refl

-- Two pages of the build's logs: the first `n + 1` entries after an offset, and, by the offset where
-- that page ends, everything after it. Together they are everything after the first offset.
pub info_logs-append :
    (logs : List BuildLogEntry) (level : Option String) (offset n : ℕ)
    → info_logs logs level (some (pos offset)) (some (pos (suc n)))
        ++ info_logs logs level (some (pos (offset + suc n))) none
      ≡ info_logs logs level (some (pos offset)) none
unfolding info_logs
info_logs-append logs level offset n =
    let chosen : List BuildLogEntry = filter_build_logs logs level in
    rw
      (
        offset_lem chosen offset,
        offset_lem chosen (offset + suc n),
        limit_lem (drop offset chosen) n,
        no_limit (drop offset chosen),
        no_limit (drop (offset + suc n) chosen),
        drop-drop offset (suc n) chosen,
      )
      (take-append-drop (suc n) (drop offset chosen))

reverse-append :
    (xs ys : List BuildLogEntry)
    → reverse_build_logs (xs ++ ys) ≡ reverse_build_logs ys ++ reverse_build_logs xs
unfolding reverse_build_logs
reverse-append [] ys = sym (append_empty (reverse_build_logs ys))
reverse-append (x ∷ xs) ys =
    rw (reverse-append xs ys)
      (append_assoc (reverse_build_logs ys) (reverse_build_logs xs) (x ∷ []))

-- Reversing twice gives the list back.
reverse_involutive : (xs : List BuildLogEntry) → reverse_build_logs (reverse_build_logs xs) ≡ xs
unfolding reverse_build_logs
reverse_involutive [] = refl
reverse_involutive (x ∷ xs) =
    rw (reverse-append (reverse_build_logs xs) (x ∷ [])) (ap (λ t. x ∷ t) (reverse_involutive xs))

length-reverse : (xs : List BuildLogEntry) → length (reverse_build_logs xs) ≡ length xs
unfolding reverse_build_logs
length-reverse [] = refl
length-reverse (x ∷ xs) =
    omega (arith, length-append (reverse_build_logs xs) (x ∷ []), length-reverse xs)

-- The answer has at most as many entries as the limit asks for, in either direction, and the answer
-- backward is the reverse of the answer forward.
pub response_logs_lem :
    (logs : List BuildLogEntry) (level : Option String) (cursor : Option ℤ) (n : ℕ)
    (backward : Bool)
    → (length (response_logs logs level cursor (some (pos (suc n))) backward) ≤ suc n)
      × (reverse_build_logs (response_logs logs level cursor (some (pos (suc n))) true)
          ≡ response_logs logs level cursor (some (pos (suc n))) false)
unfolding response_logs
response_logs_lem logs level cursor n backward =
    let chosen : List BuildLogEntry = cursor_build_logs (filter_build_logs logs level) cursor in
    (
      rw (limit_lem chosen n)
          (by_direction backward (take (suc n) chosen) (omega (arith, length-take (suc n) chosen))),
      reverse_involutive _,
    )
  where
    by_direction :
        (b : Bool) (xs : List BuildLogEntry)
        → length xs ≤ suc n
        → length (if b then reverse_build_logs xs else xs) ≤ suc n
    by_direction true xs h = omega (arith, length-reverse xs, h)
    by_direction false xs h = h
