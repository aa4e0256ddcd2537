-- ===== src/Storage/Cache/Examples.antt =====
-- The theorems on the caches at a chain of two layers of accounts over a database.
use gsenetwork.Prelude.{ℕ, [], ◌∷◌, false, ◌≡◌, refl, arith}
use gsenetwork.Prelude.Int.{pos}
use gsenetwork.Prelude.Map.{Map}
use gsenetwork.Core.Account.{Account, new_account, account_eq}
use gsenetwork.Storage.Cache.{read, fetch}
use gsenetwork.Storage.Cache.Sound.{AllSound, IsKeyed}
use gsenetwork.Storage.Cache.View.{norm, view, read-view}
use gsenetwork.Storage.Database.{account_entity}

abbrev rich : Account
rich = new_account 4 900 (pos 7)

abbrev stored : Map Account
stored = (4, new_account 4 10 (pos 7)) ∷ (9, new_account 9 20 (pos 8)) ∷ []

abbrev parent : Map Account
parent = (4, rich) ∷ []

stored-IsKeyed : IsKeyed (fetch stored)
unfolding account_eq
stored-IsKeyed k full = ground arith

sound : AllSound ([] ∷ parent ∷ [])
unfolding account_eq
sound = ((tt, tt), (((omega arith, tt), ((refl, refl), tt)), tt))

read-view_example :
    let (v, ms') = read (fetch stored) 4 ([] ∷ parent ∷ []) in
    AllSound ms'
    × ((j : ℕ) → norm (view (fetch stored) j ms') ≡ norm (view (fetch stored) j ([] ∷ parent ∷ [])))
    × (account_entity.is_empty v ≡ account_entity.is_empty rich)
    × (account_entity.is_empty v ≡ false → (v.address ≡ 4) × (norm v ≡ rich))
read-view_example = read-view (fetch stored) stored-IsKeyed 4 [] (parent ∷ []) sound
