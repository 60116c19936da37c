-- ===== src/Utils/Text/Trimmed.antt =====
-- What `trim` removes: the spaces at both ends and nothing else.
use mathlib.Core.List.{reverse-append, reverse-reverse}
use my_ycsb_cpp.Prelude.{
  ◌≡◌, refl, sym, ap, ◌∙◌, true, false, [], ◌∷◌, ◌++◌, reverse, append_assoc, All, All-append,
  Bool-cases, inl, inr,
}
use my_ycsb_cpp.Prelude.Bytes.{Bytes}
use my_ycsb_cpp.Utils.Text.{is_space, skip_spaces, trim}

abbrev pub IsBlank : Bytes → Type 0
IsBlank = All (λ c. is_space c ≡ true)

-- The text is empty or begins with a byte that is no space.
abbrev pub StartsSolid : Bytes → Type 0
StartsSolid [] = Unit
StartsSolid (c ∷ s) = is_space c ≡ false

pub skip_spaces-StartsSolid : (s : Bytes) → StartsSolid (skip_spaces s)
unfolding skip_spaces
skip_spaces-StartsSolid [] = tt
skip_spaces-StartsSolid (c ∷ s) = elim (Bool-cases (is_space c)) [
  | inl space ↦ rw space (skip_spaces-StartsSolid s)
  | inr solid ↦ rw solid solid
]

pub skip_spaces_of_solid : (s : Bytes) → StartsSolid s → skip_spaces s ≡ s
unfolding skip_spaces
skip_spaces_of_solid [] h = refl
skip_spaces_of_solid (c ∷ s) h = rw h

pub skip_spaces_split : (s : Bytes) → (front : Bytes) × IsBlank front × (s ≡ front ++ skip_spaces s)
unfolding skip_spaces
skip_spaces_split [] = ([], tt, refl)
skip_spaces_split (c ∷ s) = elim (Bool-cases (is_space c)) [
  | inl space ↦
      let (front, blank, e) = skip_spaces_split s in
      rw space (c ∷ front, (space, blank), ap (◌∷◌ c) e)
  | inr solid ↦ rw solid ([], tt, refl)
]

IsBlank-reverse : (s : Bytes) → IsBlank s → IsBlank (reverse s)
IsBlank-reverse [] h = tt
IsBlank-reverse (c ∷ s) h =
    rw (reverse-append (c ∷ []) s)
      (All-append (λ c. is_space c ≡ true) (reverse s) (c ∷ []) (IsBlank-reverse s h.1) (h.0, tt))

-- A text is blanks, its trimmed form, and blanks.
trim_split :
    (s : Bytes)
    → (front : Bytes) × (back : Bytes) × IsBlank front
      × IsBlank back
      × (s ≡ front ++ trim s ++ back)
unfolding trim
trim_split s =
    let (front, blank, e) = skip_spaces_split s in
    let inner = skip_spaces s in
    let (tail, tail_blank, e') = skip_spaces_split (reverse inner) in
    let inner_eq : inner ≡ trim s ++ reverse tail =
      sym (reverse-reverse inner) ∙ ap reverse e' ∙ reverse-append tail _ in
    (
      front,
      reverse tail,
      blank,
      IsBlank-reverse tail tail_blank,
      e ∙ ap (◌++◌ front) inner_eq ∙ sym (append_assoc front (trim s) (reverse tail)),
    )

StartsSolid-prefix : (s t : Bytes) → StartsSolid (s ++ t) → StartsSolid s
StartsSolid-prefix [] t h = tt
StartsSolid-prefix (c ∷ s) t h = h

reverse-trim : (s : Bytes) → StartsSolid (reverse (trim s))
unfolding trim
reverse-trim s =
    rw (reverse-reverse (skip_spaces (reverse (skip_spaces s))))
      (skip_spaces-StartsSolid (reverse (skip_spaces s)))

trim-StartsSolid : (s : Bytes) → StartsSolid (trim s)
unfolding trim
trim-StartsSolid s =
    let inner = skip_spaces s in
    let (tail, _, e) = skip_spaces_split (reverse inner) in
    let inner_eq : inner ≡ trim s ++ reverse tail =
      sym (reverse-reverse inner) ∙ ap reverse e ∙ reverse-append tail _ in
    StartsSolid-prefix (trim s) (reverse tail) (rw inner_eq at (skip_spaces-StartsSolid s))

-- Trimming a text twice is trimming it once.
pub trim_idem : (s : Bytes) → trim (trim s) ≡ trim s
trim_idem s =
    let once : skip_spaces (trim s) ≡ trim s = skip_spaces_of_solid (trim s) (trim-StartsSolid s) in
    let back : skip_spaces (reverse (trim s)) ≡ reverse (trim s) =
      skip_spaces_of_solid (reverse (trim s)) (reverse-trim s) in
    trim_of_solid (trim s) once back
  where
    trim_of_solid :
        (t : Bytes) → skip_spaces t ≡ t → skip_spaces (reverse t) ≡ reverse t → trim t ≡ t
    trim_of_solid t p q = unfold trim in rw (p, q) (reverse-reverse t)
