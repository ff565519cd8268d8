-- ===== src/Encoding/Components/Fuel.antt =====
-- The readers consume what they read, so that the loop of `ReadName` ends.
use ndn_bier.Prelude.{
  ℕ, zero, suc, ◌+◌, ◌*◌, ◌^◌, ◌<◌, ◌≤◌, inl, inr, List, [], ◌∷◌, ltb, leb, if◌then◌else◌, length,
  arith, Bool-cases,
}
use ndn_bier.Encoding.Name.{Component}
use ndn_bier.Encoding.BigEndian.{get_uint}
use ndn_bier.Encoding.Numbers.{tl_num_more}
use ndn_bier.Encoding.Components.{
  Read, done, eof, unexpected_eof, overflow, bad_format, panic, out_of_fuel, drop, number_read,
  read_tl_num, is_empty, read_buf, no_eof, after, read_component, read_name_loop, read_name,
}

-- The read was not cut off, and leaves at most n bytes.
abbrev pub IsWithin {ℓ} : {A : Type ℓ} → ℕ → Read A → Type 0
IsWithin n (done a rest) = length rest ≤ n
IsWithin n out_of_fuel = ⊥
IsWithin n eof = Unit
IsWithin n unexpected_eof = Unit
IsWithin n overflow = Unit
IsWithin n bad_format = Unit
IsWithin n panic = Unit

after-IsWithin {ℓ κ} :
    {A : Type ℓ} {B : Type κ} (m n : ℕ) (r : Read A) (f : A → List ℕ → Read B)
    → IsWithin m r
    → ((a : A) (rest : List ℕ) → length rest ≤ m → IsWithin n (f a rest))
    → IsWithin n (after r f)
after-IsWithin m n (done a rest) f w g = g a rest w
after-IsWithin m n eof f w g = tt
after-IsWithin m n unexpected_eof f w g = tt
after-IsWithin m n overflow f w g = tt
after-IsWithin m n bad_format f w g = tt
after-IsWithin m n panic f w g = tt
after-IsWithin m n out_of_fuel f w g = absurd w

no_eof-IsWithin {ℓ} : {A : Type ℓ} (n : ℕ) (r : Read A) → IsWithin n r → IsWithin n (no_eof r)
no_eof-IsWithin n (done a rest) w = w
no_eof-IsWithin n eof w = tt
no_eof-IsWithin n unexpected_eof w = tt
no_eof-IsWithin n overflow w = tt
no_eof-IsWithin n bad_format w = tt
no_eof-IsWithin n panic w = tt
no_eof-IsWithin n out_of_fuel w = absurd w

number-IsWithin :
    (k acc : ℕ) (bs : List ℕ) (n : ℕ) → length bs ≤ n → IsWithin n (number_read (get_uint k acc bs))
number-IsWithin zero acc bs n h = h
number-IsWithin (suc k) acc [] n h = tt
number-IsWithin (suc k) acc (b ∷ bs) n h = number-IsWithin k (acc * 256 + b) bs n (omega arith)

read_tl_num-IsWithin : (n : ℕ) (bs : List ℕ) → length bs ≤ suc n → IsWithin n (read_tl_num bs)
unfolding read_tl_num
read_tl_num-IsWithin n [] h = tt
read_tl_num-IsWithin n (x ∷ bs) h = elim (Bool-cases (leb x 0xfc)) [
  | inl short ↦ rw short (omega arith)
  | inr long ↦ rw long (number-IsWithin (tl_num_more x) 0 bs n (omega arith))
]

length-drop : (k : ℕ) (bs : List ℕ) → length (drop k bs) ≤ length bs
unfolding drop
length-drop zero bs = omega arith
length-drop (suc k) [] = omega arith
length-drop (suc k) (b ∷ bs) = omega (arith, length-drop k bs)

read_buf-IsWithin : (n l : ℕ) (bs : List ℕ) → length bs ≤ n → IsWithin n (read_buf l bs)
unfolding read_buf
read_buf-IsWithin n l bs h = elim (Bool-cases (leb (2 ^ 63) l)) [
  | inl huge ↦ rw huge (at_end bs)
  | inr small ↦ rw small (elim (Bool-cases (ltb (length bs) l)) [
    | inl over ↦ rw over tt
    | inr fits ↦ rw fits (omega (arith, length-drop l bs))
  ])
]
  where
    at_end : (xs : List ℕ) → IsWithin {A = List ℕ} n (if is_empty xs then eof else panic)
    at_end [] = tt
    at_end (x ∷ xs) = tt

-- A component takes two bytes or more.
read_component-IsWithin : (n : ℕ) (bs : List ℕ) → length bs ≤ suc n → IsWithin n (read_component bs)
unfolding read_component
read_component-IsWithin n bs h =
    after-IsWithin n n (read_tl_num bs) _ (read_tl_num-IsWithin n bs h) (λ typ rest h1.
      after-IsWithin n n (no_eof (read_tl_num rest)) _
        (no_eof-IsWithin n _ (read_tl_num-IsWithin n rest (omega arith)))
        (λ l rest' h2.
          after-IsWithin n n (read_buf l rest') _ (read_buf-IsWithin n l rest' h2)
            (λ val rest'' h3. h3)))

loop-IsWithin :
    (fuel : ℕ) (bs : List ℕ) → length bs < fuel → IsWithin (length bs) (read_name_loop fuel bs)
unfolding read_name_loop
loop-IsWithin zero bs enough = absurd (omega arith)
loop-IsWithin (suc fuel) [] enough = unfold read_component read_tl_num in omega arith
loop-IsWithin (suc fuel) (b ∷ bs) enough =
    go (λ rest h. loop-IsWithin fuel rest h) (read_component (b ∷ bs))
      (read_component-IsWithin (length bs) (b ∷ bs) (omega arith))
  where
    go :
        ((rest : List ℕ) → length rest < fuel → IsWithin (length rest) (read_name_loop fuel rest))
        → (r : Read Component) → IsWithin (length bs) r
        → IsWithin (suc (length bs)) (elim r [
          | done c rest ↦ after (read_name_loop fuel rest) (λ n rest'. done (c ∷ n) rest')
          | eof ↦ done [] []
          | unexpected_eof ↦ unexpected_eof
          | overflow ↦ overflow
          | bad_format ↦ bad_format
          | panic ↦ panic
          | out_of_fuel ↦ out_of_fuel
        ])
    go ih (done c rest) w =
        after-IsWithin (length rest) (suc (length bs)) (read_name_loop fuel rest) _
          (ih rest (omega arith)) (λ n rest' h. omega arith)
    go ih eof w = omega arith
    go ih unexpected_eof w = tt
    go ih overflow w = tt
    go ih bad_format w = tt
    go ih panic w = tt
    go ih out_of_fuel w = absurd w

-- On every input the loop of `ReadName` ends by itself: the fuel, one more than the bytes that are
-- left, is never used up, and the bytes that are left at the end are no more than at the start.
pub read_name-IsWithin : (bs : List ℕ) → IsWithin (length bs) (read_name bs)
unfolding read_name
read_name-IsWithin bs = loop-IsWithin (suc (length bs)) bs (omega arith)
