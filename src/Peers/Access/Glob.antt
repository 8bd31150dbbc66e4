-- ===== src/Peers/Access/Glob.antt =====
-- GlobMatch of src/hd_peers.cc against the prefix order of strings.
use hyper_derp.Prelude.{
  ℕ, ◌≡◌, ◌≢◌, refl, ap, sym, ◌∙◌, ◌↔◌, ◌⊎◌, All, inl, inr, true, false, if◌then◌else◌, ltb, none,
  some, List, [], ◌∷◌, ◌++◌, length, take, drop, arith, Bool-cases, Option-cases, length-append,
  take-append, take-append-drop, subst,
}
use hyper_derp.Prelude.Slots.{find_index, find_index-append}
use hyper_derp.Prelude.Bytes.{same_bytes, same_bytes_iff, same_bytes_refl, same_bytes_sound}
use hyper_derp.Peers.Access.{is_star, glob_to, glob_match}

-- A pattern without `*` matches the text that equals it.
pub glob_match-exact :
    (c : ℕ) (cs text : List ℕ)
    → find_index is_star (c ∷ cs) ≡ none
    → (glob_match (c ∷ cs) text ≡ true) ↔ (c ∷ cs ≡ text)
unfolding glob_match glob_to
glob_match-exact c cs text h = rw h (same_bytes_iff (c ∷ cs) text)

-- GlobMatch of a pattern with a `*` matches exactly the texts that begin with what stands before
-- the first `*`.
pub glob_match-prefix :
    (pre post text : List ℕ)
    → find_index is_star pre ≡ none
    → (glob_match (pre ++ (42 ∷ post)) text ≡ true) ↔ ((rest : List ℕ) × (text ≡ pre ++ rest))
unfolding glob_match glob_to
glob_match-prefix pre post text h =
    (forth, λ w. subst (λ t. glob_match (pre ++ (42 ∷ post)) t ≡ true) (sym w.1) (back w.0))
  where
    opened :
        (p : List ℕ) (t : List ℕ) → p ≢ [] → glob_match p t ≡ glob_to p t (find_index is_star p)
    opened [] t ne = absurd (ne refl)
    opened (c ∷ cs) t ne = refl

    nonempty : pre ++ (42 ∷ post) ≢ []
    nonempty e = absurd (omega (arith, sym (length-append pre (42 ∷ post)) ∙ ap length e))

    at_star :
        (t : List ℕ)
        → glob_match (pre ++ (42 ∷ post)) t
          ≡ (if ltb (length t) (length pre) then false else same_bytes pre (take (length pre) t))
    at_star t =
        opened (pre ++ (42 ∷ post)) t nonempty
        ∙ rw
            (
              find_index-append is_star pre 42 post h refl,
              take-append (length pre) pre (42 ∷ post) refl,
            )
            refl

    forth : glob_match (pre ++ (42 ∷ post)) text ≡ true → (rest : List ℕ) × (text ≡ pre ++ rest)
    forth e =
        let same = same_bytes_sound pre (take (length pre) text) (ground (arith, at_star text)) in
        (
          drop (length pre) text,
          sym (take-append-drop (length pre) text)
              ∙ ap (λ x. x ++ drop (length pre) text) (sym same),
        )

    back : (rest : List ℕ) → glob_match (pre ++ (42 ∷ post)) (pre ++ rest) ≡ true
    back rest =
        at_star (pre ++ rest)
        ∙ rw (take-append (length pre) pre rest refl)
            (ground (arith, length-append pre rest, same_bytes_refl pre))

-- A text without `*`.
abbrev pub NoStar : List ℕ → Type 0
NoStar text = All (λ c. c ≢ 42) text

-- What a pattern stands for: any text if it is empty, itself if it has no `*`, else every text that
-- begins with what stands before its first `*`.
abbrev pub Matches : List ℕ → List ℕ → Type 0
Matches pattern text =
    (pattern ≡ [])
    ⊎ (NoStar pattern × (pattern ≡ text))
    ⊎ ((pre : List ℕ) × (post : List ℕ) × (rest : List ℕ) × NoStar pre
        × (pattern ≡ pre ++ (42 ∷ post))
        × (text ≡ pre ++ rest))

find_index-NoStar : (text : List ℕ) → find_index is_star text ≡ none → NoStar text
unfolding find_index
find_index-NoStar [] h = tt
find_index-NoStar (c ∷ cs) h = elim (Option-cases (find_index is_star cs)) [
  | inl e ↦ (λ star. absurd (ground arith), find_index-NoStar cs e)
  | inr (j, e) ↦ absurd (ground arith)
]

NoStar-find_index : (text : List ℕ) → NoStar text → find_index is_star text ≡ none
unfolding find_index
NoStar-find_index [] h = refl
NoStar-find_index (c ∷ cs) h = ground (arith, h.0, NoStar-find_index cs h.1)

at_first_star :
    (text : List ℕ) (i : ℕ)
    → find_index is_star text ≡ some i
    → (pre : List ℕ) × (post : List ℕ) × NoStar pre × (text ≡ pre ++ (42 ∷ post))
unfolding find_index
at_first_star [] i h = absurd (ground arith)
at_first_star (c ∷ cs) i h = elim (Bool-cases (is_star c)) [
  | inl star ↦ ([], cs, tt, ground arith)
  | inr plain ↦ elim (Option-cases (find_index is_star cs)) [
    | inl e ↦ absurd (ground arith)
    | inr (j, e) ↦
        let (pre, post, ns, eq) = at_first_star cs j e in
        (c ∷ pre, post, (λ star. absurd (ground arith), ns), ap (λ t. c ∷ t) eq)
  ]
]

matched : (pattern text : List ℕ) → glob_match pattern text ≡ true → Matches pattern text
matched [] text h = inl refl
matched (c ∷ cs) text h = elim (Option-cases (find_index is_star (c ∷ cs))) [
  | inl e ↦ inr (inl (find_index-NoStar (c ∷ cs) e, (glob_match-exact c cs text e).0 h))
  | inr (i, e) ↦
      let (pre, post, ns, eq) = at_first_star (c ∷ cs) i e in
      let (rest, t) =
        (glob_match-prefix pre post text (NoStar-find_index pre ns)).0
          (subst (λ p. glob_match p text ≡ true) eq h) in
      inr (inr (pre, post, rest, ns, eq, t))
]

matching : (pattern text : List ℕ) → Matches pattern text → glob_match pattern text ≡ true
unfolding glob_match
matching [] text m = refl
matching (c ∷ cs) text (inl e) = absurd (ground arith)
matching (c ∷ cs) text (inr (inl (ns, e))) =
    (glob_match-exact c cs text (NoStar-find_index (c ∷ cs) ns)).1 e
matching (c ∷ cs) text (inr (inr (pre, post, rest, ns, e, t))) =
    subst (λ p. glob_match p text ≡ true) (sym e)
      ((glob_match-prefix pre post text (NoStar-find_index pre ns)).1 (rest, t))

pub glob_match-Matches :
    (pattern text : List ℕ) → (glob_match pattern text ≡ true) ↔ Matches pattern text
glob_match-Matches pattern text = (matched pattern text, matching pattern text)
