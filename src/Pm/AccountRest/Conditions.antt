-- ===== src/Pm/AccountRest/Conditions.antt =====
-- Which lists of conditions a positions query accepts, by the bytes that they name.
use polymarket_cpp.Prelude.{◌≢◌, List, [], ◌∷◌, ◌++◌, Bytes, All}
use polymarket_cpp.Pm.AccountRest.{normalized}
use polymarket_cpp.Pm.AccountRest.Spellings.{IsCondition, condition_number}

-- Conditions, no two of which name the same 32 bytes.
abbrev pub Distinct : List Bytes → Type 0
Distinct [] = Unit {0}
Distinct (c ∷ cs) =
    IsCondition c × All (λ d. condition_number c ≢ condition_number d) cs × Distinct cs

abbrev pub behind : List Bytes → Bytes
behind [] = []
behind (c ∷ cs) = b',' ∷ (c ++ behind cs)

abbrev pub comma_separated : List Bytes → Bytes
comma_separated [] = []
comma_separated (c ∷ cs) = c ++ behind cs

-- No condition of the first list names what one of the second names.
Apart : List Bytes → List Bytes → Type 0
Apart ps cs = All (λ p. All (λ c. condition_number p ≢ condition_number c) cs) ps

abbrev keys : List Bytes → List Bytes
keys [] = []
keys (p ∷ ps) = normalized p ∷ keys ps

-- The text when the loop has gone on through the conditions.
abbrev written : Bytes → List Bytes → Bytes
written [] cs = comma_separated cs
written (t ∷ ts) cs = (t ∷ ts) ++ behind cs
