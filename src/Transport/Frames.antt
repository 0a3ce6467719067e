-- ===== src/Transport/Frames.antt =====
-- Frames arrive as they were sent, however the bytes are cut on their way.
use hega_proto.Base.{
  ℕ, zero, suc, ◌+◌, ◌-◌, ◌≤◌, ◌<◌, ◌≡◌, refl, sym, ap, ◌∙◌, inl, inr, List, [], ◌∷◌, ◌++◌, arith,
  length, take, drop, leb, Bool-cases, length-append, length-drop,
}
use hega_proto.Base.Outcome.{ok}
use hega_proto.Transport.{Incoming, read_some, read_bytes}

-- all the bytes to come
unfoldable pub joined : Incoming → List ℕ
joined [] = []
joined (c ∷ cs) = c ++ joined cs

abbrev pub HasData : Incoming → Type 0
HasData [] = Unit
HasData (c ∷ cs) = (0 < length c) × HasData cs

take-append : (xs ys : List ℕ) (n k : ℕ) → n ≡ length xs + k → take n (xs ++ ys) ≡ xs ++ take k ys
take-append [] ys n k h = ap (λ (m : ℕ). take m ys) (omega (arith, h))
take-append (x ∷ xs) ys zero k h = absurd (omega (arith, h))
take-append (x ∷ xs) ys (suc n) k h = ap (λ zs. x ∷ zs) (take-append xs ys n k (omega (arith, h)))

drop-append : (xs ys : List ℕ) (n k : ℕ) → n ≡ length xs + k → drop n (xs ++ ys) ≡ drop k ys
drop-append [] ys n k h = ap (λ (m : ℕ). drop m ys) (omega (arith, h))
drop-append (x ∷ xs) ys zero k h = absurd (omega (arith, h))
drop-append (x ∷ xs) ys (suc n) k h = drop-append xs ys n k (omega (arith, h))

take_all : (xs : List ℕ) (n : ℕ) → length xs ≤ n → take n xs ≡ xs
take_all [] zero h = refl
take_all [] (suc n) h = refl
take_all (x ∷ xs) zero h = absurd (omega arith)
take_all (x ∷ xs) (suc n) h = ap (λ zs. x ∷ zs) (take_all xs n (omega arith))

length-take_inside : (xs : List ℕ) (n : ℕ) → n ≤ length xs → length (take n xs) ≡ n
length-take_inside xs zero h = refl
length-take_inside [] (suc n) h = absurd (omega arith)
length-take_inside (x ∷ xs) (suc n) h = ap suc (length-take_inside xs n (omega arith))

pub append-nil : (xs : List ℕ) → xs ++ [] ≡ xs
append-nil [] = refl
append-nil (x ∷ xs) = ap (λ zs. x ∷ zs) (append-nil xs)

take-inside : (xs ys : List ℕ) (n : ℕ) → n ≤ length xs → take n (xs ++ ys) ≡ take n xs
take-inside xs ys zero h = refl
take-inside [] ys (suc n) h = absurd (omega arith)
take-inside (x ∷ xs) ys (suc n) h = ap (λ zs. x ∷ zs) (take-inside xs ys n (omega arith))

drop-inside : (xs ys : List ℕ) (n : ℕ) → n ≤ length xs → drop n (xs ++ ys) ≡ drop n xs ++ ys
drop-inside xs ys zero h = refl
drop-inside [] ys (suc n) h = absurd (omega arith)
drop-inside (x ∷ xs) ys (suc n) h = drop-inside xs ys n (omega arith)

-- Of data that has arrived in chunks, the loop reads the bytes asked for and leaves the rest.
pub record Reads (n : ℕ) (incoming : Incoming) (fuel : ℕ) : Type 0 where
  pub after : Incoming
  pub read : read_bytes fuel n incoming ≡ ok (take n (joined incoming), after)
  pub rest : joined after ≡ drop n (joined incoming)
  pub has_data : HasData after

pub read_bytes-Reads :
    (fuel n : ℕ) (incoming : Incoming)
    → HasData incoming
    → n ≤ length (joined incoming)
    → n ≤ fuel
    → Reads n incoming fuel
unfolding read_bytes read_some joined
read_bytes-Reads fuel zero incoming d h f = record {
  after = incoming;
  read = refl;
  rest = refl;
  has_data = d;
}
read_bytes-Reads zero (suc n) incoming d h f = absurd (omega arith)
read_bytes-Reads (suc fuel) (suc n) [] d h f = absurd (omega arith)
read_bytes-Reads (suc fuel) (suc n) ([] ∷ chunks) d h f = absurd (omega (arith, d.0))
read_bytes-Reads (suc fuel) (suc n) ((b ∷ bs) ∷ chunks) d h f =
    elim (Bool-cases (leb (length (b ∷ bs)) (suc n))) [
      | inl whole ↦
          let k = suc n - length (b ∷ bs) in
          let fits : length (b ∷ bs) ≤ suc n = ground arith in
          let next =
            read_bytes-Reads fuel k chunks d.1
              (omega (arith, length-append (b ∷ bs) (joined chunks))) (omega arith) in
          record {
            after = next.after;
            read =
                rw (whole, read_bytes)
                  (rw (take_all bs n (omega arith)) (
                    rw next.read (
                      ap (λ zs. ok (b ∷ zs, next.after))
                        (sym (take-append bs (joined chunks) n k (omega arith))))));
            rest = next.rest ∙ sym (drop-append bs (joined chunks) n k (omega arith));
            has_data = next.has_data;
          }
      | inr part ↦
          let inside : n < length bs = ground arith in
          let exact = length-take_inside bs n (omega arith) in
          let none_left : suc n - suc (length (take n bs)) ≡ 0 = omega (arith, exact) in
          record {
            after = drop n bs ∷ chunks;
            read =
                rw (part, read_bytes)
                  (rw none_left (
                    ap (λ zs. ok (b ∷ zs, drop n bs ∷ chunks))
                      (append-nil (take n bs)
                        ∙ sym (take-inside bs (joined chunks) n (omega arith)))));
            rest = sym (drop-inside bs (joined chunks) n (omega arith));
            has_data = (omega (arith, inside, length-drop n bs), d.1);
          }
    ]
