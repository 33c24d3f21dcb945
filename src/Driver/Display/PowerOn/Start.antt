-- ===== src/Driver/Display/PowerOn/Start.antt =====
-- driver/display/display_driver.c: starting a display.
use agcore.Prelude.{ℕ, ◌≡◌, ◌++◌, Option, true, false, take, length, ◌≤◌, ◌⊎◌, inl, inr, Bool-cases}
use agcore.Platform.{EspErr, is_ok}
use agcore.Driver.Display.{PanelConfig, Answers, Display, lacks_pin}
use agcore.Driver.Display.Facade.{DisplayIc, st7735, st7789, driver_init}
use agcore.Driver.Display.Sequence.{Followed, if_ok}
use agcore.Driver.Display.PowerOn.{power_on, settled, settled-power_on, settled-take}
use agcore.Driver.Display.PowerOn.St7735
use agcore.Driver.Display.PowerOn.St7789
use agcore.Driver.Display.PowerOn.Started7735
use agcore.Driver.Display.PowerOn.Started7789

driver_init-Followed :
    (ic : DisplayIc) (cfg : PanelConfig) (answer : Answers) (cb : Option ℕ) (d : Display)
    → d.runtime.initialized ≡ false
    → lacks_pin cfg ≡ false
    → Followed (power_on ic cfg cb) d (driver_init cfg answer ic cb d)
driver_init-Followed st7735 cfg answer cb d e pins = St7735.init-Followed cfg answer cb d e pins
driver_init-Followed st7789 cfg answer cb d e pins = St7789.init-Followed cfg answer cb d e pins

driver_init-started :
    (ic : DisplayIc) (cfg : PanelConfig) (answer : Answers) (cb : Option ℕ) (d : Display)
    → d.runtime.initialized ≡ false
    → is_ok (driver_init cfg answer ic cb d).0 ≡ true
    → (driver_init cfg answer ic cb d).1.runtime.initialized ≡ true
driver_init-started st7735 cfg answer cb d e = Started7735.init-started cfg answer cb d e
driver_init-started st7789 cfg answer cb d e = Started7789.init-started cfg answer cb d e

-- The first k calls of the sequence, with the panel's times kept; all of them and an initialised
-- display unless there is an error.
abbrev pub PowersOn : DisplayIc → PanelConfig → Option ℕ → Display → EspErr × Display → Type 0
PowersOn ic cfg cb d o =
    (k : ℕ) × (k ≤ length (power_on ic cfg cb))
    × (o.1.calls ≡ d.calls ++ take k (power_on ic cfg cb))
    × (settled 0 (take k (power_on ic cfg cb)) ≡ true)
    × ((is_ok o.0 ≡ false) ⊎ ((k ≡ length (power_on ic cfg cb)) × (o.1.runtime.initialized ≡ true)))

-- The initialisation of a display that is not initialised, with its four pins configured, makes the first k calls
-- of the panel's sequence, whatever the hardware answers, and none else: no command comes sooner than
-- 120 ms after the software reset or the end of sleep. If it returns ESP_OK, it has made all of them, and the
-- display is initialised.
pub driver_init-power_on :
    (ic : DisplayIc) (cfg : PanelConfig) (answer : Answers) (cb : Option ℕ) (d : Display)
    → d.runtime.initialized ≡ false
    → lacks_pin cfg ≡ false
    → PowersOn ic cfg cb d (driver_init cfg answer ic cb d)
driver_init-power_on ic cfg answer cb d e pins =
    let (k, fits, calls, all) = driver_init-Followed ic cfg answer cb d e pins in
    (
      k,
      fits,
      calls,
      settled-take k 0 (power_on ic cfg cb) (settled-power_on ic cfg cb),
      elim (Bool-cases (is_ok (driver_init cfg answer ic cb d).0)) [
        | inl okay ↦ inr (if_ok all okay, driver_init-started ic cfg answer cb d e okay)
        | inr fails ↦ inl fails
      ],
    )
