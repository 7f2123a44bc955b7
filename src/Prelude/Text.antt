-- ===== src/Prelude/Text.antt =====
-- Texts: where a separator stands decides the parts.
use Prim.Native.Char.{code, Char}
use Prim.Native.String.{String, ◌++◌}
use mathlib.Core.Path.{◌≡◌, ◌∙◌, refl, sym, ap, ap₂}
use mathlib.Core.Logic.{◌≢◌}
use semaphore_xds.Prelude.Tests.{beq_of_ne, nat_beq, nat_eq}
use mathlib.Core.Bool.{false}
use mathlib.Core.List.{List, [], ◌∷◌}
use text.Mathlib.TextEquality.{Char-path}
use text.Mathlib.TextLemmas.{head-eq_of_cons-eq, tail-eq_of_cons-eq, nil-append, cons-append}

-- No character of the text is `c`.
abbrev pub Free : Char → String → Type 0
Free c String.[] = Unit
Free c (String.◌∷◌ d s) = (d ≢ c) × Free c s

pub ruleset append_clauses = (nil-append, cons-append)

-- A text splits in one way at the first `c`.
pub split_at_first :
    (c : Char) (a b x y : String)
    → Free c a
    → Free c b
    → a ++ String.◌∷◌ c x ≡ b ++ String.◌∷◌ c y
    → (a ≡ b) × (x ≡ y)
split_at_first c String.[] String.[] x y fa fb h =
    (refl, tail-eq_of_cons-eq (simp append_clauses at h))
split_at_first c String.[] (String.◌∷◌ d b) x y fa fb h =
    absurd (fb.0 (sym (head-eq_of_cons-eq (simp append_clauses at h))))
split_at_first c (String.◌∷◌ d a) String.[] x y fa fb h =
    absurd (fa.0 (head-eq_of_cons-eq (simp append_clauses at h)))
split_at_first c (String.◌∷◌ d a) (String.◌∷◌ e b) x y fa fb h =
    let r = split_at_first c a b x y fa.1 fb.1 (tail-eq_of_cons-eq (simp append_clauses at h)) in
    (ap₂ String.◌∷◌ (head-eq_of_cons-eq (simp append_clauses at h)) r.0, r.1)

pub dot-append : (s : String) → "." ++ s ≡ String.◌∷◌ "." s
dot-append s = cons-append "." "" s ∙ ap (String.◌∷◌ ".") (nil-append s)

-- Two characters that differ have different codes.
pub char_differs : (c d : Char) → d ≢ c → nat_beq (code d) (code c) ≡ false
char_differs c d h = beq_of_ne (code d) (code c) (λ e. h (Char-path d c e))

pub Free-append : (c : Char) (s t : String) → Free c s → Free c t → Free c (s ++ t)
Free-append c String.[] t fs ft = rw nil-append ft
Free-append c (String.◌∷◌ d s) t fs ft = rw cons-append (fs.0, Free-append c s t fs.1 ft)

-- Two texts joined by a dot, the first without one, are told apart.
pub dot_join_injective :
    (a b x y : String) → Free "." a → Free "." b → a ++ "." ++ x ≡ b ++ "." ++ y → (a ≡ b) × (x ≡ y)
dot_join_injective a b x y fa fb h =
    split_at_first "." a b x y fa fb (rw (dot-append x, dot-append y) at h)

-- strings.Join
unfoldable pub join : List String → String → String
join [] sep = ""
join (x ∷ []) sep = x
join (x ∷ y ∷ rest) sep = x ++ (sep ++ join (y ∷ rest) sep)
