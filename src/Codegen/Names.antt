-- ===== src/Codegen/Names.antt =====
-- The C names of the generator: one for a message where it is defined, one where it is referred to.
use grpc_uds.Prelude.{
  ℕ, ◌≡◌, ◌≢◌, refl, sym, ap, ◌∙◌, Bool, true, false, List, [], ◌∷◌, ◌++◌, ◌==◌, if◌then◌else◌,
  append_assoc, arith, Bool-cases, inl, inr, All, codes,
}
use grpc_uds.Codegen.{
  Text, dot, underscore, trim_dots, replace_dots, qualified_type, onto_first, split_dots, join_rest,
  join, message_c_type,
}

replace_dots-append : (xs ys : Text) → replace_dots (xs ++ ys) ≡ replace_dots xs ++ replace_dots ys
unfolding replace_dots
replace_dots-append [] ys = refl
replace_dots-append (x ∷ xs) ys = rw (replace_dots-append xs ys) refl

join-onto_first : (sep c : ℕ) (ps : List Text) → join sep (onto_first c ps) ≡ c ∷ join sep ps
unfolding join join_rest
join-onto_first sep c [] = refl
join-onto_first sep c (p ∷ ps) = refl

abbrev IsSplit : List Text → Type 0
IsSplit [] = ⊥
IsSplit (p ∷ ps) = Unit

split_dots-IsSplit : (s : Text) → IsSplit (split_dots s)
unfolding split_dots
split_dots-IsSplit [] = tt
split_dots-IsSplit (c ∷ cs) = go (c == dot) (split_dots cs)
  where
    go : (b : Bool) (rest : List Text) → IsSplit (if b then [] ∷ rest else onto_first c rest)
    go true rest = tt
    go false [] = tt
    go false (p ∷ ps) = tt

join_rest-IsSplit : (sep : ℕ) (ps : List Text) → IsSplit ps → join_rest sep ps ≡ sep ∷ join sep ps
unfolding join join_rest
join_rest-IsSplit sep [] h = elim h [ ]
join_rest-IsSplit sep (p ∷ ps) h = refl

-- Splitting at the dots and joining with underscores replaces them.
join-split_dots : (s : Text) → join underscore (split_dots s) ≡ replace_dots s
unfolding split_dots replace_dots join join_rest
join-split_dots [] = refl
join-split_dots (c ∷ cs) = elim (Bool-cases (c == dot)) [
  | inl hit ↦ rw hit (
      join_rest-IsSplit underscore (split_dots cs) (split_dots-IsSplit cs)
      ∙ ap (◌∷◌ underscore) (join-split_dots cs))
  | inr miss ↦
      rw miss (join-onto_first underscore c (split_dots cs) ∙ ap (◌∷◌ c) (join-split_dots cs))
]

-- The name of a message has no dot.
abbrev pub IsPlain : Text → Type 0
IsPlain p = replace_dots p ≡ p

replace_dots-join_rest :
    (ps : List Text) → All IsPlain ps → replace_dots (join_rest dot ps) ≡ join_rest underscore ps
unfolding replace_dots join_rest
replace_dots-join_rest [] h = refl
replace_dots-join_rest (p ∷ ps) (h, hs) =
    ap (◌∷◌ underscore)
      (replace_dots-append p (join_rest dot ps) ∙ rw (h, replace_dots-join_rest ps hs) refl)

join-append_rest :
    (sep : ℕ) (ps qs : List Text)
    → IsSplit ps
    → join sep (ps ++ qs) ≡ join sep ps ++ join_rest sep qs
unfolding join join_rest
join-append_rest sep [] qs h = elim h [ ]
join-append_rest sep (p ∷ ps) qs h =
    ap (λ t. p ++ t) (rest ps) ∙ sym (append_assoc p (join_rest sep ps) (join_rest sep qs))
  where
    rest : (ps : List Text) → join_rest sep (ps ++ qs) ≡ join_rest sep ps ++ join_rest sep qs
    rest [] = refl
    rest (p ∷ ps) =
        ap (◌∷◌ sep)
          (ap (λ t. p ++ t) (rest ps) ∙ sym (append_assoc p (join_rest sep ps) (join_rest sep qs)))

trim_dots-plain : (c : ℕ) (cs : Text) → c ≢ dot → trim_dots (dot ∷ c ∷ cs) ≡ c ∷ cs
unfolding trim_dots
trim_dots-plain c cs ne = ground arith

-- A message in a package, nested in messages whose names have no dots: the name of its C struct,
-- where the generator defines a setter for it, is the one that it makes of a reference to the
-- message by its full name, as protoc gives it with a dot before the package.
pub qualified_type-message_c_type :
    (c : ℕ) (cs : Text) (path : List Text)
    → c ≢ dot
    → All IsPlain path
    → qualified_type (dot ∷ ((c ∷ cs) ++ join_rest dot path)) ≡ message_c_type (c ∷ cs) path
unfolding qualified_type message_c_type
qualified_type-message_c_type c cs path ne plain =
    ap (λ t. codes "::" ++ t)
      (ap replace_dots (trim_dots-plain c (cs ++ join_rest dot path) ne)
        ∙ replace_dots-append (c ∷ cs) (join_rest dot path)
        ∙ rw (replace_dots-join_rest path plain) (
            ap (λ t. t ++ join_rest underscore path) (sym (join-split_dots (c ∷ cs)))
            ∙ sym (
                join-append_rest underscore (split_dots (c ∷ cs)) path
                  (split_dots-IsSplit (c ∷ cs)))))
