-- ===== src/Memory/Windows.antt =====
-- The last elements of a list, and eviction from them.
use ryvix.Common.{
  ℕ, zero, suc, ◌+◌, ◌-◌, ◌≤◌, ◌<◌, ◌≡◌, refl, sym, ap, ◌∙◌, true, false, List, [], ◌∷◌, ◌++◌, ltb,
  if◌then◌else◌, length, drop, take_last, arith, Bool-cases, inl, inr, length-append, length-drop,
}
use ryvix.Memory.{WorkingTurn, slice_last, push_turn}

drop-append :
    {A : Type 0} (n : ℕ) (xs ys : List A) → n ≤ length xs → drop n (xs ++ ys) ≡ drop n xs ++ ys
drop-append zero xs ys h = refl
drop-append (suc n) [] ys h = absurd (omega (arith, h))
drop-append (suc n) (x ∷ xs) ys h = drop-append n xs ys (omega (arith, h))

drop_one : {A : Type 0} (n : ℕ) (xs : List A) → drop 1 (drop n xs) ≡ drop (suc n) xs
drop_one zero xs = refl
drop_one (suc n) [] = refl
drop_one (suc n) (x ∷ xs) = drop_one n xs

pub take_last_all : {A : Type 0} (n : ℕ) (xs : List A) → length xs ≤ n → take_last n xs ≡ xs
take_last_all n xs h =
    let none_dropped : length xs - n ≡ 0 = omega (arith, h) in rw (none_dropped) refl

abbrev evict : ℕ → List WorkingTurn → List WorkingTurn
evict n turns = if ltb (suc n) (length turns) then slice_last (suc n) turns else turns

evict_short : (n : ℕ) (turns : List WorkingTurn) → length turns ≤ suc n → evict n turns ≡ turns
evict_short n turns h =
    let short : ltb (suc n) (length turns) ≡ false = ground (arith, h) in rw (short) refl

evict_one :
    (n : ℕ) (turns : List WorkingTurn) → length turns ≡ suc (suc n) → evict n turns ≡ drop 1 turns
evict_one n turns h =
    let long : ltb (suc n) (length turns) ≡ true = ground (arith, h) in
    let one : length turns - suc n ≡ 1 = omega (arith, h) in rw (long, one) refl

-- Eviction from the last turns of a log leaves the last turns of the longer log.
pub push_turn-take_last :
    (n : ℕ) (turn : WorkingTurn) (log : List WorkingTurn)
    → push_turn (suc n) turn (take_last (suc n) log) ≡ take_last (suc n) (log ++ (turn ∷ []))
unfolding push_turn
push_turn-take_last n turn log =
    let xs = log ++ (turn ∷ []) in
    let more : length xs ≡ length log + 1 = length-append log (turn ∷ []) in
    elim (Bool-cases (ltb (length log) (suc n))) [
      | inl e ↦
          let fits : length xs ≤ suc n = ground (arith, e, more) in
          ap (λ turns. evict n (turns ++ (turn ∷ [])))
            (take_last_all (suc n) log (ground (arith, e)))
          ∙ evict_short n xs fits
          ∙ sym (take_last_all (suc n) xs fits)
      | inr e ↦
          let k = length log - suc n in
          let last : length xs - suc n ≡ suc k = ground (arith, e, more) in
          let size : length (drop k xs) ≡ suc (suc n) = ground (arith, e, more, length-drop k xs) in
          ap (evict n) (sym (drop-append k log (turn ∷ []) (omega arith)))
          ∙ evict_one n (drop k xs) size
          ∙ drop_one k xs
          ∙ sym (ap (λ i. drop i xs) last)
    ]

drop_nil : {A : Type 0} (n : ℕ) → drop {A = A} n [] ≡ []
drop_nil zero = refl
drop_nil (suc n) = refl

drop-drop : {A : Type 0} (a b : ℕ) (xs : List A) → drop a (drop b xs) ≡ drop (b + a) xs
drop-drop a zero xs = let same : 0 + a ≡ a = omega arith in rw (same) refl
drop-drop a (suc b) [] = drop_nil a ∙ sym (drop_nil (suc b + a))
drop-drop a (suc b) (x ∷ xs) =
    let more : suc b + a ≡ suc (b + a) = omega arith in rw (more) (drop-drop a b xs)

pub take_last-take_last :
    {A : Type 0} (k n : ℕ) (xs : List A) → k ≤ n → take_last k (take_last n xs) ≡ take_last k xs
take_last-take_last k n xs h =
    let b = length xs - n in
    let size = length-drop b xs in
    let both : b + (length (drop b xs) - k) ≡ length xs - k = omega (arith, h, size) in
    drop-drop (length (drop b xs) - k) b xs ∙ ap (λ i. drop i xs) both

pub slice_nil : (n : ℕ) → slice_last {A = WorkingTurn} n [] ≡ []
slice_nil zero = refl
slice_nil (suc n) = take_last_all (suc n) [] (omega arith)

pub slice-take_last :
    (n : ℕ) (turns : List WorkingTurn) → 0 < n → slice_last n turns ≡ take_last n turns
slice-take_last zero turns h = absurd (omega (arith, h))
slice-take_last (suc n) turns h = refl
