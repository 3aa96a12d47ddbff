-- ===== src/Records/Clock.antt =====
-- Instants, in microseconds, as the texts that `now` of orch/contracts.py writes. `isoformat` leaves
-- out the fraction of a whole second, and the texts are compared as texts: the "Z" that follows the
-- seconds is above the "." that a fraction begins with, so a whole second sorts behind the
-- fractions of that second.
use orchd_ai.Prelude.{ℕ, ◌+◌, ◌*◌, ◌/◌, ◌%◌, ◌≤◌, ◌<◌, Bool, arith, ltb, leb, ◌==◌, if◌then◌else◌}

abbrev pub second : ℕ
second = 1000000

-- The order of the texts is the order of these numbers.
unfoldable pub text_rank : ℕ → ℕ
text_rank t =
    let micros = t % second in t / second * (second + 1) + (if micros == 0 then second else micros)

-- `a > b`, as texts
unfoldable pub is_later : ℕ → ℕ → Bool
unfolding text_rank
is_later a b = ltb (text_rank b) (text_rank a)

-- `a <= b`, as texts
unfoldable pub is_over : ℕ → ℕ → Bool
unfolding text_rank
is_over a b = leb (text_rank a) (text_rank b)

-- A text that is later by a second or more is above.
pub text_rank-lt : (a b : ℕ) → a + second ≤ b → text_rank a < text_rank b
unfolding text_rank
text_rank-lt a b h = ground arith
