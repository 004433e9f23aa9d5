-- ===== src/Spikes/Sql/Words.antt =====
-- What the search for whole words finds.
use chat_chart.Base.{
  ℕ, ◌≡◌, refl, sym, ap, ◌∙◌, subst, ◌↔◌, inl, inr, Bool, true, false, ◌&&◌, Option, some, List, [],
  ◌∷◌, ◌++◌, arith, Text, contains, any, Bool-cases,
}
use chat_chart.Spikes.Sql.{goes_on, has_word, has_word_here, is_boundary, first}

-- The character before the text that follows `a`.
abbrev pub last_of : Option ℕ → Text → Option ℕ
last_of before [] = before
last_of before (c ∷ a) = last_of (some c) a

contains-any :
    (p : Text → Bool) (word : Text) (words : List Text)
    → contains word words ≡ true
    → p word ≡ true
    → any p words ≡ true
contains-any p word [] h e = cc
contains-any p word (w ∷ words) h e = ground (arith, contains-any p word words)

any-contains :
    (p : Text → Bool) (words : List Text)
    → any p words ≡ true
    → (word : Text) × (contains word words ≡ true) × (p word ≡ true)
any-contains p [] h = cc
any-contains p (w ∷ words) h = elim (Bool-cases (p w)) [
  | inl e ↦ (w, ground arith, e)
  | inr e ↦ later (any-contains p words (ground arith))
]
  where
    later :
        (word : Text) × (contains word words ≡ true) × (p word ≡ true)
        → (word : Text) × (contains word (w ∷ words) ≡ true) × (p word ≡ true)
    later (word, f, g) = (word, ground arith, g)

last_of-append :
    (before : Option ℕ) (a b : Text) → last_of before (a ++ b) ≡ last_of (last_of before a) b
last_of-append before [] b = refl
last_of-append before (c ∷ a) b = last_of-append (some c) a b

module _ (is_word : ℕ → Bool) (same : ℕ → ℕ → Bool) where
  -- The text reads as the word.
  abbrev pub reads_as : Text → Text → Bool
  reads_as [] [] = true
  reads_as (c ∷ s) [] = false
  reads_as [] (k ∷ word) = false
  reads_as (c ∷ s) (k ∷ word) = same c k && reads_as s word

  pub record IsWordIn (words : List Text) (before : Option ℕ) (s : Text) : Type 0 where
    pub left : Text
    pub middle : Text
    pub right : Text
    pub word : Text
    pub whole : s ≡ left ++ (middle ++ right)
    pub listed : contains word words ≡ true
    pub reads : reads_as middle word ≡ true
    pub begins : is_boundary is_word (last_of before left) (first (middle ++ right)) ≡ true
    pub ends : is_boundary is_word (last_of before (left ++ middle)) (first right) ≡ true

  goes_on-reads :
      (before : Option ℕ) (middle word right : Text)
      → reads_as middle word ≡ true
      → goes_on is_word same before word (middle ++ right)
        ≡ is_boundary is_word (last_of before middle) (first right)
  unfolding goes_on
  goes_on-reads before [] [] right h = refl
  goes_on-reads before (c ∷ s) [] right h = cc
  goes_on-reads before [] (k ∷ word) right h = cc
  goes_on-reads before (c ∷ s) (k ∷ word) right h =
      ground (arith, goes_on-reads (some c) s word right)

  reads-goes_on :
      (before : Option ℕ) (word s : Text)
      → goes_on is_word same before word s ≡ true
      → (middle : Text) × (right : Text) × (s ≡ middle ++ right)
        × (reads_as middle word ≡ true)
        × (is_boundary is_word (last_of before middle) (first right) ≡ true)
  unfolding goes_on
  reads-goes_on before [] s h = ([], s, refl, refl, h)
  reads-goes_on before (k ∷ word) [] h = cc
  reads-goes_on before (k ∷ word) (c ∷ s) h =
      let (m, r, e, f, g) = reads-goes_on (some c) word s (ground arith) in
      (c ∷ m, r, ap (λ t. c ∷ t) e, ground arith, g)

  here-has_word :
      (words : List Text) (before : Option ℕ) (left s : Text)
      → has_word_here is_word same words (last_of before left) s ≡ true
      → has_word is_word same words before (left ++ s) ≡ true
  unfolding has_word
  here-has_word words before [] [] h = h
  here-has_word words before [] (c ∷ s) h = ground arith
  here-has_word words before (c ∷ left) s h = ground (arith, here-has_word words (some c) left s)

  has_word-here :
      (words : List Text) (before : Option ℕ) (s : Text)
      → has_word is_word same words before s ≡ true
      → (left : Text) × (right : Text) × (s ≡ left ++ right)
        × (has_word_here is_word same words (last_of before left) right ≡ true)
  unfolding has_word
  has_word-here words before [] h = ([], [], refl, h)
  has_word-here words before (c ∷ s) h =
      elim (Bool-cases (has_word_here is_word same words before (c ∷ s))) [
        | inl e ↦ ([], c ∷ s, refl, e)
        | inr e ↦ found (has_word-here words (some c) s (ground arith))
      ]
    where
      found :
          ((left : Text) × (right : Text) × (s ≡ left ++ right)
            × (has_word_here is_word same words (last_of (some c) left) right ≡ true))
          → (left : Text) × (right : Text) × (c ∷ s ≡ left ++ right)
            × (has_word_here is_word same words (last_of before left) right ≡ true)
      found (left, right, f, g) = (c ∷ left, right, ap (λ t. c ∷ t) f, g)

  -- The search finds a word exactly where the statement has one of the words with a boundary on both sides.
  pub has_word-IsWordIn :
      (words : List Text) (before : Option ℕ) (s : Text)
      → (has_word is_word same words before s ≡ true) ↔ IsWordIn words before s
  has_word-IsWordIn words before s = (finds, holds)
    where
      finds : has_word is_word same words before s ≡ true → IsWordIn words before s
      finds h =
          let (left, right, e, f) = has_word-here words before s h in
          let (word, m, g) =
            any-contains (λ w. goes_on is_word same (last_of before left) w right) words
              (ground arith) in
          let (middle, rest, e1, r, b) = reads-goes_on (last_of before left) word right g in
          record {
            left = left;
            middle = middle;
            right = rest;
            word = word;
            whole = subst (λ t. s ≡ left ++ t) e1 e;
            listed = m;
            reads = r;
            begins =
                subst (λ t. is_boundary is_word (last_of before left) (first t) ≡ true) e1
                  (ground arith);
            ends = rw (last_of-append before left middle) b;
          }

      both : {a b : Bool} → a ≡ true → b ≡ true → (a && b) ≡ true
      both h e = ground arith

      at_left :
          (o : IsWordIn words before s)
          → any (λ w. goes_on is_word same (last_of before o.left) w (o.middle ++ o.right)) words
            ≡ true
      at_left o = contains-any _ o.word words o.listed (
          goes_on-reads (last_of before o.left) o.middle o.word o.right o.reads
          ∙ subst (λ b. is_boundary is_word b (first o.right) ≡ true)
              (last_of-append before o.left o.middle) o.ends)

      holds : IsWordIn words before s → has_word is_word same words before s ≡ true
      holds o =
          subst (λ t. has_word is_word same words before t ≡ true) (sym o.whole)
            (here-has_word words before o.left (o.middle ++ o.right) (both o.begins (at_left o)))
