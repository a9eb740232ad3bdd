-- ===== src/Client/Configuration/Revisions.antt =====
-- Revisions of the sensor configuration over any number of sessions.
use netft_cpp.Base.{ℕ, ◌+◌, ◌≡◌, refl, List, [], ◌∷◌, some, if◌then◌else◌, u64, arith}
use netft_cpp.Floats.{Floats}
use netft_cpp.Types.{Calibration, SensorConfiguration}
use netft_cpp.Client.State.{Impl}
use netft_cpp.Client.Configuration.{same_calibration, apply_configuration}

module _ (F : Floats) where
  open F use {Double}

  -- The configurations of several sessions, one after another.
  pub apply_all : Impl Double → List (SensorConfiguration Double) → Impl Double
  apply_all impl [] = impl
  apply_all impl (c ∷ cs) = apply_all (apply_configuration F impl c) cs

  -- How often the calibration differs from the one before it.
  unfoldable pub changes : Calibration Double → List (SensorConfiguration Double) → ℕ
  changes previous [] = 0
  changes previous (c ∷ cs) =
      (if same_calibration F previous c.calibration then 0 else 1) + changes c.calibration cs

  unfoldable pub last_calibration :
      Calibration Double → List (SensorConfiguration Double) → Calibration Double
  last_calibration previous [] = previous
  last_calibration previous (c ∷ cs) = last_calibration c.calibration cs

  -- The client holds a configuration with calibration `c`, at this revision and with this many
  -- changes counted, both modulo 2 ^ 64.
  pub record Holds (impl : Impl Double) (c : Calibration Double) (revision count : ℕ) : Type 0 where
    pub current : SensorConfiguration Double
    pub held : impl.health.sensor_configuration ≡ some current
    pub calibrated : current.calibration ≡ c
    pub revised : current.revision ≡ u64 revision
    pub counted : impl.health.calibration_change_count ≡ u64 count

  abbrev differs : Calibration Double → Calibration Double → ℕ
  differs c d = if same_calibration F c d then 0 else 1

  apply_configuration-Holds :
      (impl : Impl Double) (c : Calibration Double) (r n : ℕ) (x : SensorConfiguration Double)
      → Holds impl c r n
      → Holds
          (apply_configuration F impl x)
          x.calibration
          (differs c x.calibration + r)
          (differs c x.calibration + n)
  unfolding apply_configuration
  apply_configuration-Holds impl c r n x h = record {
    current = record x {
      revision =
          if same_calibration F c x.calibration
          then h.current.revision
          else u64 (h.current.revision + 1);
    };
    held = ground (arith, h.held, h.calibrated);
    calibrated = refl;
    revised = ground (arith, h.revised);
    counted = ground (arith, h.counted, h.held, h.calibrated);
  }

  Holds-resp :
      (impl : Impl Double) (c : Calibration Double) {r r' n n' : ℕ}
      → r ≡ r'
      → n ≡ n'
      → Holds impl c r n
      → Holds impl c r' n'
  Holds-resp impl c er en h = rw (← er, ← en) h

  -- On a client that holds a configuration, over any number of sessions, the revision and the count
  -- of calibration changes both grow by the number of configurations whose calibration differs from
  -- the one before, modulo 2 ^ 64, and the last calibration is the one in force.
  pub apply_all-Holds :
      (impl : Impl Double) (c : Calibration Double) (r n : ℕ)
      (cs : List (SensorConfiguration Double))
      → Holds impl c r n
      → Holds (apply_all impl cs) (last_calibration c cs) (changes c cs + r) (changes c cs + n)
  unfolding apply_all changes last_calibration
  apply_all-Holds impl c r n [] h = Holds-resp impl c (omega arith) (omega arith) h
  apply_all-Holds impl c r n (x ∷ cs) h =
      let next = apply_configuration F impl x in
      let d = differs c x.calibration in
      Holds-resp (apply_all next cs) (last_calibration x.calibration cs) (omega arith) (omega arith)
        (apply_all-Holds next x.calibration (d + r) (d + n) cs
          (apply_configuration-Holds impl c r n x h))
