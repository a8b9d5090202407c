-- ===== src/Visits/Platform.antt =====
-- What the visit service uses of JavaScript's numbers and of the database's collation, which are
-- no code of the repository, and backend/src/common/utils/distance.util.ts on top of it. A number
-- stands for its bit pattern.
use proactive.Base.{ℕ, Bool, String, Text}

pub record Platform : Type 0 where
  -- `+`, `-`, `*`, `/`, `** 2` and the value of a literal.
  pub plus : ℕ → ℕ → ℕ
  pub minus : ℕ → ℕ → ℕ
  pub times : ℕ → ℕ → ℕ
  pub over : ℕ → ℕ → ℕ
  pub square : ℕ → ℕ
  pub literal : String → ℕ
  -- The number of a whole number, and of a decimal column (`Number(value)`).
  pub whole : ℕ → ℕ
  pub decimal : ℕ → ℕ
  pub pi : ℕ
  pub sin : ℕ → ℕ
  pub cos : ℕ → ℕ
  pub sqrt : ℕ → ℕ
  pub atan2 : ℕ → ℕ → ℕ
  pub round : ℕ → ℕ
  -- `<=` and `>`, and whether a number is true in a condition.
  pub at_most : ℕ → ℕ → Bool
  pub above : ℕ → ℕ → Bool
  pub is_truthy : ℕ → Bool
  -- A whole number in a message.
  pub shown : ℕ → String
  -- Whether the database sorts a label before another or with it.
  pub sorts_before : Text → Text → Bool

module _ (p : Platform) where
  unfoldable to_radians : ℕ → ℕ
  to_radians degrees = p.over (p.times degrees p.pi) (p.literal "180")

  unfoldable pub get_distance_in_meters : ℕ → ℕ → ℕ → ℕ → ℕ
  unfolding to_radians
  get_distance_in_meters lat1 lon1 lat2 lon2 =
      let earth_radius_meters = p.literal "6371000" in
      let delta_lat = to_radians (p.minus lat2 lat1) in
      let delta_lon = to_radians (p.minus lon2 lon1) in
      let two = p.literal "2" in
      let a = p.plus (p.square (p.sin (p.over delta_lat two))) (
        p.times (p.times (p.cos (to_radians lat1)) (p.cos (to_radians lat2)))
          (p.square (p.sin (p.over delta_lon two)))) in
      p.times (p.times two earth_radius_meters)
        (p.atan2 (p.sqrt a) (p.sqrt (p.minus (p.literal "1") a)))
