-- ===== src/Turns/Base64/RoundTrip.antt =====
-- Base64: what is read back from a link (apps/duell-web/src/turns.js: seal, unseal).
use mathlib.Core.Path.{subst}
use cads_agent_marketplace.Common.{
  All, List, Option, [], ap, arith, false, list_eq, map, nat_eq, refl, some, sym, take, true, ℕ,
  ◌%◌, ◌*◌, ◌++◌, ◌+◌, ◌/◌, ◌<◌, ◌==◌, ◌∙◌, ◌∷◌, ◌≡◌,
}
use cads_agent_marketplace.Turns.Base64.{
  atob, btoa, fill_up, group, is_link_char, of_link, of_url, sextet, std_char, strip, three_bytes,
  to_link, to_url,
}

-- What holds of the character that a link has for `v`.
record IsChar (v c : ℕ) : Type 0 where
  pub read : sextet (of_url c) ≡ some v
  pub kept : (c == b'=') ≡ false
  pub still : (of_url c == b'=') ≡ false
  pub known : is_link_char c ≡ true

std_char-IsChar : (v : ℕ) → v < 64 → IsChar v (to_url (std_char v))
std_char-IsChar v h = record {
  read = ground arith;
  kept = ground arith;
  still = ground arith;
  known = ground arith;
}

abbrev enc : ℕ → ℕ
enc v = to_url (std_char v)

strip-kept_char : (c : ℕ) (cs : List ℕ) → (c == b'=') ≡ false → strip (c ∷ cs) ≡ c ∷ strip cs
strip-kept_char c cs h = rw h

fill_four : (a b c d : ℕ) (ys : List ℕ) → fill_up (a ∷ b ∷ c ∷ d ∷ ys) ≡ a ∷ b ∷ c ∷ d ∷ fill_up ys
fill_four a b c d ys =
    ap (λ n. a ∷ b ∷ c ∷ d ∷ (ys ++ take n (b'=' ∷ b'=' ∷ b'=' ∷ []))) (omega arith)

unwrap : (bs : List ℕ) → ◌≡◌ {A = Option (List ℕ)} (some []) (some bs) → [] ≡ bs
unwrap bs h = cc

strip-enc : (v : ℕ) (t : List ℕ) → v < 64 → strip (enc v ∷ t) ≡ enc v ∷ strip t
strip-enc v t h = strip-kept_char (enc v) t (std_char-IsChar v h).kept

strip-two :
    (v w : ℕ) (t : List ℕ) → v < 64 → w < 64 → strip (enc v ∷ enc w ∷ t) ≡ enc v ∷ enc w ∷ strip t
strip-two v w t hv hw =
    strip-enc v (enc w ∷ t) hv ∙ ap (λ (r : List ℕ). enc v ∷ r) (strip-enc w t hw)

-- A link that ends in two characters, or in three.
link_two : (v w : ℕ) → v < 64 → w < 64 → of_link (enc v ∷ enc w ∷ []) ≡ some ((v * 4 + w / 16) ∷ [])
unfolding atob
link_two v w hv hw = rw ((std_char-IsChar v hv).read, (std_char-IsChar w hw).read)

link_three :
    (v w x : ℕ)
    → v < 64
    → w < 64
    → x < 64
    → of_link (enc v ∷ enc w ∷ enc x ∷ []) ≡ some ((v * 4 + w / 16) ∷ ((w % 16) * 16 + x / 4) ∷ [])
unfolding atob
link_three v w x hv hw hx = rw (
  (std_char-IsChar x hx).still,
  (std_char-IsChar v hv).read,
  (std_char-IsChar w hw).read,
  (std_char-IsChar x hx).read,
)

module _ (v w x y : ℕ) (hv : v < 64) (hw : w < 64) (hx : x < 64) (hy : y < 64) where
  group_lem :
      group (of_url (enc v)) (of_url (enc w)) (of_url (enc x)) (of_url (enc y))
      ≡ some (three_bytes v w x y)
  group_lem = rw (
    (std_char-IsChar v hv).read,
    (std_char-IsChar w hw).read,
    (std_char-IsChar x hx).read,
    (std_char-IsChar y hy).read,
  )

  -- Four characters in front are three bytes in front.
  of_link_four :
      (t bs : List ℕ)
      → of_link t ≡ some bs
      → of_link (enc v ∷ enc w ∷ enc x ∷ enc y ∷ t) ≡ some (three_bytes v w x y ++ bs)
  unfolding atob
  of_link_four [] bs h =
      rw ((std_char-IsChar y hy).still, group_lem)
        (ap (λ r. some (three_bytes v w x y ++ r)) (unwrap bs h))
  of_link_four (u ∷ us) bs h =
      ap atob (
        fill_four (of_url (enc v)) (of_url (enc w)) (of_url (enc x)) (of_url (enc y))
          (map of_url (u ∷ us)))
      ∙ rw (group_lem, h)

pub of_link-to_link : (bs : List ℕ) → All (λ b. b < 256) bs → of_link (to_link bs) ≡ some bs
unfolding btoa atob
of_link-to_link [] h = refl
of_link-to_link (a ∷ []) h =
    let e : (a / 4) * 4 + ((a % 4) * 16) / 16 ≡ a = omega arith in
    ap of_link (strip-two (a / 4) ((a % 4) * 16) (b'=' ∷ b'=' ∷ []) (omega arith) (omega arith))
    ∙ link_two (a / 4) ((a % 4) * 16) (omega arith) (omega arith)
    ∙ ap (λ (n : ℕ). some (n ∷ [])) e
of_link-to_link (a ∷ b ∷ []) h =
    let v = a / 4 in
    let w = (a % 4) * 16 + b / 16 in
    let x = (b % 16) * 4 in
    let e : v * 4 + w / 16 ≡ a = omega arith in
    let f : (w % 16) * 16 + x / 4 ≡ b = omega arith in
    ap of_link (
      strip-two v w (enc x ∷ b'=' ∷ []) (omega arith) (omega arith)
      ∙ ap (λ (r : List ℕ). enc v ∷ enc w ∷ r) (strip-enc x (b'=' ∷ []) (omega arith)))
    ∙ link_three v w x (omega arith) (omega arith) (omega arith)
    ∙ ap (λ (p : ℕ × ℕ). some (p.0 ∷ p.1 ∷ [])) (λ i. (e i, f i))
of_link-to_link (a ∷ b ∷ c ∷ r) h =
    let v = a / 4 in
    let w = (a % 4) * 16 + b / 16 in
    let x = (b % 16) * 4 + c / 64 in
    let y = c % 64 in
    let e : v * 4 + w / 16 ≡ a = omega arith in
    let f : (w % 16) * 16 + x / 4 ≡ b = omega arith in
    let g : (x % 4) * 64 + y ≡ c = omega arith in
    ap of_link (
      strip-two v w (enc x ∷ enc y ∷ map to_url (btoa r)) (omega arith) (omega arith)
      ∙ ap (λ (t : List ℕ). enc v ∷ enc w ∷ t)
          (strip-two x y (map to_url (btoa r)) (omega arith) (omega arith)))
    ∙ of_link_four v w x y (omega arith) (omega arith) (omega arith) (omega arith) (to_link r) r
        (of_link-to_link r h.1.1.1)
    ∙ (λ i. some (e i ∷ f i ∷ g i ∷ r))

link_fits : (v : ℕ) → v < 64 → is_link_char (enc v) ≡ true
link_fits v h = (std_char-IsChar v h).known

abbrev AllLink : List ℕ → Type 0
AllLink cs = All (λ c. is_link_char c ≡ true) cs

-- A link has only the characters that it may have.
pub to_link-chars : (bs : List ℕ) → All (λ b. b < 256) bs → AllLink (to_link bs)
unfolding btoa
to_link-chars [] h = tt
to_link-chars (a ∷ []) h =
    let v = a / 4 in
    let w = (a % 4) * 16 in
    subst AllLink (sym (strip-two v w (b'=' ∷ b'=' ∷ []) (omega arith) (omega arith)))
      (link_fits v (omega arith), (link_fits w (omega arith), tt))
to_link-chars (a ∷ b ∷ []) h =
    let v = a / 4 in
    let w = (a % 4) * 16 + b / 16 in
    let x = (b % 16) * 4 in
    subst AllLink
      (sym (
        strip-two v w (enc x ∷ b'=' ∷ []) (omega arith) (omega arith)
        ∙ ap (λ (r : List ℕ). enc v ∷ enc w ∷ r) (strip-enc x (b'=' ∷ []) (omega arith))))
      (link_fits v (omega arith), (link_fits w (omega arith), (link_fits x (omega arith), tt)))
to_link-chars (a ∷ b ∷ c ∷ r) h =
    let v = a / 4 in
    let w = (a % 4) * 16 + b / 16 in
    let x = (b % 16) * 4 + c / 64 in
    let y = c % 64 in
    subst AllLink
      (sym (
        strip-two v w (enc x ∷ enc y ∷ map to_url (btoa r)) (omega arith) (omega arith)
        ∙ ap (λ (t : List ℕ). enc v ∷ enc w ∷ t)
            (strip-two x y (map to_url (btoa r)) (omega arith) (omega arith))))
      (
        link_fits v (omega arith),
        (
          link_fits w (omega arith),
          (link_fits x (omega arith), (link_fits y (omega arith), to_link-chars r h.1.1.1)),
        ),
      )
