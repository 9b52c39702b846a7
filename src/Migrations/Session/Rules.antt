-- ===== src/Migrations/Session/Rules.antt =====
-- Splitting a coroutine of src/amigrations.cpp on a test.
use asql.Base.{◌≡◌, refl, Bool, true, false, if◌then◌else◌}
use asql.Migrations.Session.{World, Flow, M}

pub if-rule :
    {S B : Type 0} (P : Flow B × World S → Type 0) (b : Bool) (x y : M S B) (w : World S)
    → (b ≡ true → P (x w))
    → (b ≡ false → P (y w))
    → P ((if b then x else y) w)
if-rule P true x y w f g = f refl
if-rule P false x y w f g = g refl
