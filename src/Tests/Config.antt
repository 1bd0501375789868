-- ===== src/Tests/Config.antt =====
-- Tests of the configuration.
use okmx8mm.Base.{◌≡◌, refl, arith, List, [], ◌∷◌, true, some, pos, minus, codes}
use okmx8mm.Base.{All}
use okmx8mm.Config.{Config, apply_line, kind_of, trim_front, trim_end, split, apply_value}
use okmx8mm.Config.Reading.{init, load}
use okmx8mm.Config.Line.{Setting, text, number, flag, IsSetting}
use okmx8mm.Config.Load.{file, assign_all, load-settings}

abbrev settings : List Setting
settings =
    text (codes "serial_device") (codes "/dev/ttymxc1=a b")
    ∷ number (codes "can_id_base") true (0 ∷ 7 ∷ 6 ∷ 8 ∷ [])
    ∷ flag (codes "mqtt_enabled") true
    ∷ text (codes "source") []
    ∷ []

settings-IsSetting : All IsSetting settings
unfolding kind_of trim_front trim_end
settings-IsSetting = (
  (
    refl,
    omega arith,
    (refl, refl),
    (
      refl,
      (
        refl,
        (
          refl,
          (
            refl,
            (
              refl,
              (
                refl,
                (refl, (refl, (refl, (refl, (refl, (refl, (refl, (refl, (refl, (refl, tt)))))))))),
              ),
            ),
          ),
        ),
      ),
    ),
  ),
  (
    (refl, omega arith, (omega arith, omega arith, omega arith)),
    (refl, ((refl, omega arith, (refl, refl), tt), tt)),
  ),
)

load-settings_example : load true init (some (file settings)) ≡ (pos 0, assign_all init settings)
load-settings_example = load-settings init settings settings-IsSetting

-- The values there.
loaded_lem :
    let c = assign_all init settings in
    (c.texts (codes "serial_device") ≡ codes "/dev/ttymxc1=a b")
    × (c.numbers (codes "can_id_base") ≡ minus 768)
    × (c.numbers (codes "mqtt_enabled") ≡ pos 1)
    × (c.texts (codes "source") ≡ [])
    × (c.numbers (codes "baudrate") ≡ pos 9600)
unfolding okmx8mm.Config.put
loaded_lem = (refl, refl, refl, refl, refl)
