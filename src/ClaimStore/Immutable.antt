-- ===== src/ClaimStore/Immutable.antt =====
-- What is published under a final name stays as it is.
use swisstokint_open_risk_in.Data.{Data}
use swisstokint_open_risk_in.Platform.{Platform}
use swisstokint_open_risk_in.ClaimStore.Files.{Files}
use swisstokint_open_risk_in.ClaimStore.World.{World}
use swisstokint_open_risk_in.ClaimStore.Sound.{Keeps, Sound}

Keeps-trans : (f g h : Files) → Keeps f g → Keeps g h → Keeps f h
Keeps-trans f g h a b = record { entry = λ p x n e. b.entry p x n (a.entry p x n e) }
