-- ===== src/Query/Encryptor/Growth.antt =====
-- The encryptor only appends to the node array and to the literals, and numbers the literals from 0.
use Prim.Native.Nat.add
use native.Mathlib.Nat.{add-zero}
use hega_proto.Base.{
  ap, get_elem?-last, ℕ, zero, suc, ◌+◌, ◌^◌, ◌≤◌, ◌<◌, ◌≡◌, refl, ◌∙◌, some, List, [], ◌∷◌, ◌++◌,
  arith, Str, length, get_elem?, length-append, get_elem?-append, codes,
}
use hega_proto.Base.Int.{ℤ, pos}
use hega_proto.Engine.{Engine}
use hega_proto.Query.{PredNode, EncryptedLiteralEntry, find_literal}
use hega_proto.Query.Encryptor.{
  Output, push_node, push_literal, literal_entry, add_chars, char_or_zero,
}

pub record Extends (o o' : Output) : Type 0 where
  pub nodes : (i : ℕ) (n : PredNode) → get_elem? o.nodes i ≡ some n → get_elem? o'.nodes i ≡ some n
  pub literals :
      (i : ℕ) (l : EncryptedLiteralEntry)
      → get_elem? o.literals i ≡ some l
      → get_elem? o'.literals i ≡ some l
  pub node_length : length o.nodes ≤ length o'.nodes
  pub literal_length : length o.literals ≤ length o'.literals

pub Extends-refl : (o : Output) → Extends o o
Extends-refl o = record {
  nodes = λ i n h. h;
  literals = λ i l h. h;
  node_length = omega arith;
  literal_length = omega arith;
}

pub Extends-trans : {o p q : Output} → Extends o p → Extends p q → Extends o q
Extends-trans a b = record {
  nodes = λ i n h. b.nodes i n (a.nodes i n h);
  literals = λ i l h. b.literals i l (a.literals i l h);
  node_length = omega arith;
  literal_length = omega arith;
}

pub Extends-push_node : (n : PredNode) (o : Output) → Extends o (push_node n o).1
Extends-push_node n o = record {
  nodes = λ i m h. get_elem?-append o.nodes (n ∷ []) i h;
  literals = λ i l h. h;
  node_length = omega (arith, length-append o.nodes (n ∷ []));
  literal_length = omega arith;
}

-- The literals' ids are their positions, counted from `k`.
abbrev pub NumberedFrom : ℕ → List EncryptedLiteralEntry → Type 0
NumberedFrom k [] = Unit
NumberedFrom k (l ∷ ls) = (l.id ≡ k) × NumberedFrom (suc k) ls

pub NumberedFrom-append :
    (k : ℕ) (ls : List EncryptedLiteralEntry) (l : EncryptedLiteralEntry)
    → NumberedFrom k ls
    → l.id ≡ k + length ls
    → NumberedFrom k (ls ++ l ∷ [])
NumberedFrom-append k [] l h e = (omega arith, tt)
NumberedFrom-append k (m ∷ ls) l h e = (h.0, NumberedFrom-append (suc k) ls l h.1 (omega arith))

-- Where ids are positions, the first literal with an id is the one at that position.
find_literal-NumberedFrom :
    (k i : ℕ) (ls : List EncryptedLiteralEntry)
    → NumberedFrom k ls
    → find_literal (k + i) ls ≡ get_elem? ls i
unfolding find_literal
find_literal-NumberedFrom k i [] h = refl
find_literal-NumberedFrom k zero (l ∷ ls) h = ground (arith, h.0)
find_literal-NumberedFrom k (suc i) (l ∷ ls) h =
    ground (arith, h.0, find_literal-NumberedFrom (suc k) i ls h.1)

pub find_literal-eq-get :
    (i : ℕ) (ls : List EncryptedLiteralEntry)
    → NumberedFrom 0 ls
    → find_literal i ls ≡ get_elem? ls i
find_literal-eq-get i ls h = rw add.zero at (find_literal-NumberedFrom 0 i ls h)

-- The next id is the number of literals, and every literal's id is its position.
pub record IsNumbered (o : Output) : Type 0 where
  pub next : o.next_id ≡ length o.literals
  pub ids : NumberedFrom 0 o.literals

module _ (e : Engine) where
  pub Extends-push_literal : (type : Str) (v : ℤ) (o : Output) → Extends o (push_literal e type v o)
  Extends-push_literal type v o = record {
    nodes = λ i n h. h;
    literals = λ i l h. get_elem?-append o.literals (literal_entry e o.next_id type v ∷ []) i h;
    node_length = omega arith;
    literal_length =
        omega (arith, length-append o.literals (literal_entry e o.next_id type v ∷ []));
  }

  pub push_literal-IsNumbered :
      (type : Str) (v : ℤ) (o : Output)
      → IsNumbered o
      → length o.literals + 1 < 2 ^ 32
      → IsNumbered (push_literal e type v o)
  push_literal-IsNumbered type v o h b = record {
    next = omega (arith, h.next, length-append o.literals (literal_entry e o.next_id type v ∷ []));
    ids = NumberedFrom-append 0 o.literals (literal_entry e o.next_id type v) h.ids (omega arith);
  }

  pub Extends-add_chars :
      (rounds position : ℕ) (s : Str) (o : Output) → Extends o (add_chars e rounds position s o)
  unfolding add_chars
  Extends-add_chars zero position s o = Extends-refl o
  Extends-add_chars (suc rounds) position s o =
      Extends-trans (Extends-push_literal (codes "STRING_CHAR") (pos (char_or_zero s position)) o) (
        Extends-add_chars rounds (position + 1) s
          (push_literal e (codes "STRING_CHAR") (pos (char_or_zero s position)) o))

  -- The loop keeps the numbering, and counts one literal for each round.
  pub add_chars-IsNumbered :
      (rounds position : ℕ) (s : Str) (o : Output)
      → IsNumbered o
      → length o.literals + rounds < 2 ^ 32
      → IsNumbered (add_chars e rounds position s o)
        × (length (add_chars e rounds position s o).literals ≡ length o.literals + rounds)
        × ((add_chars e rounds position s o).nodes ≡ o.nodes)
  unfolding add_chars
  add_chars-IsNumbered zero position s o h b = (h, omega arith, refl)
  add_chars-IsNumbered (suc rounds) position s o h b =
      let o₁ = push_literal e (codes "STRING_CHAR") (pos (char_or_zero s position)) o in
      let grown =
        length-append o.literals
          (literal_entry e o.next_id (codes "STRING_CHAR") (pos (char_or_zero s position)) ∷ []) in
      let rest =
        add_chars-IsNumbered rounds (position + 1) s o₁
          (push_literal-IsNumbered (codes "STRING_CHAR") (pos (char_or_zero s position)) o h
            (omega arith))
          (omega (arith, grown)) in
      (rest.0, omega (arith, grown, rest.1), rest.2)

  -- Round `k` of the loop leaves the literal of position `position + k` behind those of `o`.
  pub get-add_chars :
      (rounds position : ℕ) (s : Str) (o : Output)
      → IsNumbered o
      → length o.literals + rounds < 2 ^ 32
      → (k : ℕ) → k < rounds
      → get_elem? (add_chars e rounds position s o).literals (length o.literals + k)
        ≡ some (
            literal_entry e
              (length o.literals + k)
              (codes "STRING_CHAR")
              (pos (char_or_zero s (position + k))))
  unfolding add_chars
  get-add_chars zero position s o h b k lt = absurd (omega arith)
  get-add_chars (suc rounds) position s o h b zero lt =
      let entry = literal_entry e o.next_id (codes "STRING_CHAR") (pos (char_or_zero s position)) in
      let o₁ = push_literal e (codes "STRING_CHAR") (pos (char_or_zero s position)) o in
      rw (add-zero, add-zero)
        ((Extends-add_chars rounds (position + 1) s o₁).literals (length o.literals) entry
            (get_elem?-last o.literals entry)
          ∙ ap
              (λ id.
                some (literal_entry e id (codes "STRING_CHAR") (pos (char_or_zero s position))))
              h.next)
  get-add_chars (suc rounds) position s o h b (suc k) lt =
      let o₁ = push_literal e (codes "STRING_CHAR") (pos (char_or_zero s position)) o in
      let grown =
        length-append o.literals
          (literal_entry e o.next_id (codes "STRING_CHAR") (pos (char_or_zero s position)) ∷ []) in
      let at : length o.literals + suc k ≡ length o₁.literals + k = omega (arith, grown) in
      let shift : position + suc k ≡ position + 1 + k = omega arith in
      rw (at, shift)
        (get-add_chars rounds (position + 1) s o₁
          (push_literal-IsNumbered (codes "STRING_CHAR") (pos (char_or_zero s position)) o h
            (omega arith))
          (omega (arith, grown)) k (omega arith))
