-- ===== src/Timestamp/Tests.antt =====
-- Times that are printed.
use mtnet.Prelude.{◌≡◌, refl, [], ◌∷◌}
use mtnet.Prelude.Int.{pos, negsuc}
use mtnet.Timestamp.Print.{to_string}

-- 10000 microseconds: "0.010000".
ten_thousand : to_string (pos 10000) ≡ 48 ∷ 46 ∷ 48 ∷ 49 ∷ 48 ∷ 48 ∷ 48 ∷ 48 ∷ []
unfolding to_string
ten_thousand = refl

-- Five microseconds before the epoch: "0.-00005".
before_epoch : to_string (negsuc 4) ≡ 48 ∷ 46 ∷ 45 ∷ 48 ∷ 48 ∷ 48 ∷ 48 ∷ 53 ∷ []
unfolding to_string
before_epoch = refl
