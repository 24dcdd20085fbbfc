-- ===== src/Images/Laws.antt =====
-- The parts of an image's name (internal/gateway/shared_helpers.go, gateway_callbacks.go).
use Prim.Native.Char.{Char, code}
use Prim.Native.String.{[] as nil, ◌∷◌ as cons, ◌++◌ as text_append}
use text.Mathlib.TextEquality.{Char-path}
use text.Mathlib.TextLemmas.{nil-append, cons-append}
use e2b_local.Prelude.{
  ℕ, String, ◌≡◌, ◌≢◌, refl, sym, ap, ◌∙◌, true, false, none, some, [], ◌∷◌, arith, inl, inr,
  Option-cases, Bool-cases, nat_beq, trim_space, string_eq,
}
use e2b_local.Images.{
  contains, cut_first, cut_last, or_after, without_tag, tag_of, colon, slash, at_sign,
  short_docker_image_name, docker_template_name, docker_image_tag,
}

colon-text : (c : Char) → nat_beq (code c) colon ≡ true → cons c nil ≡ ":"
colon-text c h = ap (λ x. cons x nil) (Char-path c _ (ground (arith, h)))

cons-text : (c : Char) (s : String) → cons c s ≡ text_append (cons c nil) s
cons-text c s = sym (cons-append c nil s ∙ ap (λ t. cons c t) (nil-append s))

-- Cutting at the last colon loses nothing but the colon.
cut_last-join :
    (s before after : String)
    → cut_last colon s ≡ some (before, after)
    → s ≡ text_append before (text_append ":" after)
unfolding cut_last
cut_last-join nil before after h = absurd (cc h)
cut_last-join (cons c s) before after h = elim (Option-cases (cut_last colon s)) [
  | inl e ↦ elim (Bool-cases (nat_beq (code c) colon)) [
    | inl t ↦
        let first : nil ≡ before = cc (rw (e, t) at h) in
        let last : s ≡ after = cc (rw (e, t) at h) in
        rw (← first, ← last)
          (cons-text c s
            ∙ (ap (λ x. text_append x s) (colon-text c t) ∙ sym (nil-append (text_append ":" s))))
    | inr f ↦ absurd (cc (rw (e, f) at h))
  ]
  | inr ((b, a), e) ↦
      let first : cons c b ≡ before = cc (rw e at h) in
      let last : a ≡ after = cc (rw e at h) in
      rw (← first, ← last)
        (ap (λ t. cons c t) (cut_last-join s b a e) ∙ sym (cons-append c b (text_append ":" a)))
]

cut_first-none : (n : ℕ) (s : String) → contains n s ≡ false → cut_first n s ≡ none
unfolding cut_first
cut_first-none n nil h = refl
cut_first-none n (cons c s) h = ground (arith, cut_first-none n s)

contains-cut_last :
    (n k : ℕ) (s : String) → contains n s ≡ false → contains n (or_after s (cut_last k s)) ≡ false
unfolding cut_last
contains-cut_last n k nil h = refl
contains-cut_last n k (cons c s) h = ground (arith, contains-cut_last n k s, h)

name-join :
    (name : String)
    → cut_first at_sign name ≡ none
    → tag_of (cut_last colon name) ≢ ""
    → name
      ≡ text_append
          (without_tag name (cut_first at_sign name))
          (text_append ":" (tag_of (cut_last colon name)))
name-join name e h = elim (Option-cases (cut_last colon name)) [
  | inl none_there ↦ absurd (h (ap tag_of none_there))
  | inr ((before, after), there) ↦ rw (e, there) (cut_last-join name before after there)
]

-- Where an image has a tag, the last part of its reference is the name of the template, a colon and the
-- tag.
pub short_name-join :
    (image_ref : String)
    → docker_image_tag image_ref ≢ ""
    → short_docker_image_name image_ref
      ≡ text_append (docker_template_name image_ref) (text_append ":" (docker_image_tag image_ref))
unfolding short_docker_image_name docker_template_name docker_image_tag
short_name-join image_ref h =
    let ref = trim_space image_ref in
    let name = or_after ref (cut_last slash ref) in
    elim (Bool-cases (contains at_sign ref)) [
      | inl e ↦ absurd (h (rw e refl))
      | inr e ↦
          let free = cut_first-none at_sign name (contains-cut_last at_sign slash ref e) in
          rw e (name-join name free (rw e at h))
    ]
