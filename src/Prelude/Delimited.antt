-- ===== src/Prelude/Delimited.antt =====
-- Keys that join their parts with a delimiter byte can be taken apart again.
use mathlib.Core.Path.{◌≡◌, refl}
use mathlib.Core.Logic.{◌≢◌}
use mathlib.Core.List.{[], ◌∷◌, ◌++◌}
use Prim.Native.Nat.{ℕ}
use toki_sync.Prelude.Lists.{All}
use toki_sync.Prelude.Text.{Str}

-- No byte of the text is `c`.
abbrev pub Avoids : ℕ → Str → Type 0
Avoids c = All (λ b. b ≢ c)

pub delimited_injective :
    (c : ℕ) (a a' rest rest' : Str)
    → Avoids c a
    → Avoids c a'
    → a ++ c ∷ rest ≡ a' ++ c ∷ rest'
    → (a ≡ a') × (rest ≡ rest')
delimited_injective c [] [] rest rest' h h' e = (refl, cc)
delimited_injective c [] (y ∷ a') rest rest' h h' e = absurd (h'.0 (cc))
delimited_injective c (x ∷ a) [] rest rest' h h' e = absurd (h.0 (cc))
delimited_injective c (x ∷ a) (y ∷ a') rest rest' h h' e =
    let r = delimited_injective c a a' rest rest' h.1 h'.1 (cc) in
    let hd : x ≡ y = cc in (cc (hd, r.0), r.1)
