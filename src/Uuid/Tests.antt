-- ===== src/Uuid/Tests.antt =====
-- A run of `UUID4`, and the theorem at a concrete sequence of draws.
use easy_network.Base.{ℕ, ◌%◌, ◌<◌, ◌≡◌, refl, arith, codes}
use easy_network.Uuid.{variant, uuid4_loop, uuid4}

abbrev counting : ℕ → ℕ
counting i = i % 16

uuid4_run : uuid4 counting ≡ codes "01234567-89ab-4def-8123-456789abcdef"
unfolding uuid4 uuid4_loop variant
uuid4_run = refl

counting-lt : (i : ℕ) → counting i < 16
counting-lt i = omega arith
