-- ===== src/Driver/Display/PowerOn.antt =====
-- driver/display: the calls that put a panel into operation, in their order, with the panel's times.
pub mod St7735
pub mod St7789
pub mod Started7735
pub mod Started7789
pub mod Start
use agcore.Prelude.{
  ℕ, ◌-◌, ◌*◌, zero, suc, ◌≡◌, refl, List, [], ◌∷◌, ◌++◌, Option, none, some, Bool, true, false,
  not, ◌&&◌, ◌==◌, if◌then◌else◌, bit_or, take, arith, Bool-cases, if_cases, inl, inr,
}
use agcore.Driver.Display.{
  LcdCmd, swreset, slpout, noron, invoff, invon, dispon, madctl, colmod, raw, Call, tx_param,
  tx_color, gpio_config, gpio_set_level, spi_bus_initialize, new_panel_io, delay_ms, PanelConfig,
  is_configured, frame_bytes, heap_malloc, heap_free, task_create,
}
use agcore.Driver.Display.St7789.{positive_gamma, negative_gamma}
use agcore.Driver.Display.Sequence.{for_pin}
use agcore.Driver.Display.Facade.{DisplayIc, st7735, st7789}

-- The milliseconds that a panel needs after a command before the next one.
abbrev pub owes : LcdCmd → ℕ
owes swreset = 120
owes slpout = 120
owes c = 0

-- Nothing is sent while time is owed.
unfoldable pub settled : ℕ → List Call → Bool
settled owed [] = true
settled owed (tx_param c bytes ∷ cs) = (owed == 0) && settled (owes c) cs
settled owed (tx_color c pixels size ∷ cs) = (owed == 0) && settled 0 cs
settled owed (delay_ms n ∷ cs) = settled (owed - n) cs
settled owed (c ∷ cs) = settled owed cs

-- The commands of each panel from the reset by software to the picture.
abbrev pub st7735_calls : Bool → ℕ → List Call
st7735_calls inverted direction =
    tx_param swreset []
    ∷ delay_ms 150
    ∷ tx_param slpout []
    ∷ delay_ms 120
    ∷ tx_param (raw 0xB1) (0x01 ∷ 0x2C ∷ 0x2D ∷ [])
    ∷ tx_param (raw 0xB2) (0x01 ∷ 0x2C ∷ 0x2D ∷ [])
    ∷ tx_param (raw 0xB3) (0x01 ∷ 0x2C ∷ 0x2D ∷ 0x01 ∷ 0x2C ∷ 0x2D ∷ [])
    ∷ ((if inverted then tx_param (raw 0xB4) (0x07 ∷ []) ∷ [] else [])
        ++ (tx_param (raw 0xC0) (0xA2 ∷ 0x02 ∷ 0x84 ∷ [])
            ∷ tx_param (raw 0xC1) (0xC5 ∷ [])
            ∷ tx_param (raw 0xC2) (0x0A ∷ 0x00 ∷ [])
            ∷ tx_param (raw 0xC3) (0x8A ∷ 0x2A ∷ [])
            ∷ tx_param (raw 0xC4) (0x8A ∷ 0xEE ∷ [])
            ∷ tx_param (raw 0xC5) (0x0E ∷ [])
            ∷ tx_param madctl (direction ∷ [])
            ∷ tx_param colmod (0x05 ∷ [])
            ∷ tx_param (if inverted then invon else invoff) []
            ∷ tx_param noron []
            ∷ delay_ms 10
            ∷ tx_param dispon []
            ∷ delay_ms 100
            ∷ []))

abbrev pub st7789_calls : List Call
st7789_calls =
    tx_param swreset []
    ∷ delay_ms 150
    ∷ tx_param slpout []
    ∷ delay_ms 120
    ∷ tx_param (raw 0xB2) (0x0C ∷ 0x0C ∷ 0x00 ∷ 0x33 ∷ 0x33 ∷ [])
    ∷ tx_param (raw 0xB7) (0x35 ∷ [])
    ∷ tx_param (raw 0xBB) (0x19 ∷ [])
    ∷ tx_param (raw 0xC0) (0x2C ∷ [])
    ∷ tx_param (raw 0xC2) (0x01 ∷ 0xFF ∷ [])
    ∷ tx_param (raw 0xC3) (0x12 ∷ [])
    ∷ tx_param (raw 0xC4) (0x20 ∷ [])
    ∷ tx_param (raw 0xC6) (0x0F ∷ [])
    ∷ tx_param (raw 0xD0) (0xA4 ∷ 0xA1 ∷ [])
    ∷ tx_param madctl (0 ∷ [])
    ∷ tx_param colmod (0x55 ∷ [])
    ∷ delay_ms 10
    ∷ tx_param (raw 0xB0) (0x00 ∷ 0xF8 ∷ [])
    ∷ tx_param (raw 0xE0) positive_gamma
    ∷ tx_param (raw 0xE1) negative_gamma
    ∷ tx_param invon []
    ∷ tx_param noron []
    ∷ delay_ms 10
    ∷ tx_param dispon []
    ∷ delay_ms 100
    ∷ []

abbrev pub panel_calls : DisplayIc → PanelConfig → List Call
panel_calls st7735 cfg = st7735_calls cfg.invert_color (if cfg.bgr_order then cfg.bits.bgr else 0)
panel_calls st7789 cfg = st7789_calls

-- The ST7735 starts turned by 180 degrees.
abbrev pub start_direction : DisplayIc → PanelConfig → List Call
start_direction st7735 cfg =
    tx_param madctl
      (bit_or (if cfg.bgr_order then cfg.bits.bgr else 0) (bit_or cfg.bits.mx cfg.bits.my) ∷ [])
    ∷ []
start_direction st7789 cfg = []

abbrev pub backlight_level : PanelConfig → Bool → Bool
backlight_level cfg enabled =
    if enabled then cfg.backlight_active_high else not cfg.backlight_active_high

abbrev pub lights_on : PanelConfig → List Call
lights_on cfg =
    for_pin cfg.gpio_backlight (λ pin. gpio_set_level pin (backlight_level cfg true) ∷ [])

abbrev pub reset_calls : ℕ → List Call
reset_calls pin =
    gpio_config pin
    ∷ gpio_set_level pin false
    ∷ delay_ms 20
    ∷ gpio_set_level pin true
    ∷ delay_ms 120
    ∷ []

-- The sequence up to the picture, and what comes after it.
abbrev pub power_on_to : DisplayIc → PanelConfig → Option ℕ → List Call → List Call
power_on_to ic cfg cb rest =
    for_pin cfg.gpio_backlight
      (λ pin. gpio_config pin ∷ gpio_set_level pin (backlight_level cfg false) ∷ [])
    ++ (spi_bus_initialize cfg.spi_host cfg.gpio_mosi cfg.gpio_sclk (frame_bytes cfg)
        ∷ new_panel_io cfg.spi_host cfg.gpio_dc cfg.gpio_cs cfg.pixel_clock_hz
            (elim cb [ none ↦ false | some f ↦ true ])
        ∷ (for_pin cfg.gpio_rst reset_calls ++ (panel_calls ic cfg ++ rest)))

-- The whole sequence.
abbrev pub power_on : DisplayIc → PanelConfig → Option ℕ → List Call
power_on ic cfg cb = power_on_to ic cfg cb (start_direction ic cfg ++ (lights_on cfg ++ []))

settled-take :
    (k owed : ℕ) (cs : List Call) → settled owed cs ≡ true → settled owed (take k cs) ≡ true
unfolding settled
settled-take zero owed cs h = refl
settled-take (suc k) owed [] h = refl
settled-take (suc k) owed (tx_param c bytes ∷ cs) h = ground (arith, h, settled-take k (owes c) cs)
settled-take (suc k) owed (tx_color c pixels size ∷ cs) h = ground (arith, h, settled-take k 0 cs)
settled-take (suc k) owed (delay_ms n ∷ cs) h = settled-take k (owed - n) cs h
settled-take (suc k) owed (gpio_config pin ∷ cs) h = settled-take k owed cs h
settled-take (suc k) owed (gpio_set_level pin level ∷ cs) h = settled-take k owed cs h
settled-take (suc k) owed (spi_bus_initialize host mosi sclk size ∷ cs) h = settled-take k owed cs h
settled-take (suc k) owed (new_panel_io host dc cs' clock notified ∷ cs) h =
    settled-take k owed cs h
settled-take (suc k) owed (heap_malloc ∷ cs) h = settled-take k owed cs h
settled-take (suc k) owed (heap_free ∷ cs) h = settled-take k owed cs h
settled-take (suc k) owed (task_create ∷ cs) h = settled-take k owed cs h

settled-for_pin :
    (pin : Option ℕ) (f : ℕ → List Call) (rest : List Call)
    → ((p : ℕ) → settled 0 (f p ++ rest) ≡ true)
    → settled 0 rest ≡ true
    → settled 0 (for_pin pin f ++ rest) ≡ true
settled-for_pin none f rest h k = k
settled-for_pin (some p) f rest h k =
    if_cases (λ (l : List Call). settled 0 (l ++ rest) ≡ true) (is_configured (some p)) (f p) []
      (λ e. h p) (λ e. k)

settled-st7735 :
    (inverted : Bool) (direction : ℕ) (rest : List Call)
    → settled 0 rest ≡ true
    → settled 0 (st7735_calls inverted direction ++ rest) ≡ true
unfolding settled
settled-st7735 true direction rest h = h
settled-st7735 false direction rest h = h

settled-panel :
    (ic : DisplayIc) (cfg : PanelConfig) (rest : List Call)
    → settled 0 rest ≡ true
    → settled 0 (panel_calls ic cfg ++ rest) ≡ true
unfolding settled
settled-panel st7735 cfg rest h = settled-st7735 cfg.invert_color _ rest h
settled-panel st7789 cfg rest h = h

settled-start_direction :
    (ic : DisplayIc) (cfg : PanelConfig) (rest : List Call)
    → settled 0 rest ≡ true
    → settled 0 (start_direction ic cfg ++ rest) ≡ true
unfolding settled
settled-start_direction st7735 cfg rest h = h
settled-start_direction st7789 cfg rest h = h

-- The sequence gives the panel its times.
settled-power_on :
    (ic : DisplayIc) (cfg : PanelConfig) (cb : Option ℕ) → settled 0 (power_on ic cfg cb) ≡ true
unfolding settled
settled-power_on ic cfg cb =
    let last : settled 0 (lights_on cfg ++ []) ≡ true =
      settled-for_pin cfg.gpio_backlight _ [] (λ p. refl) refl in
    let start = settled-start_direction ic cfg (lights_on cfg ++ []) last in
    let panel = settled-panel ic cfg _ start in
    settled-for_pin cfg.gpio_backlight _ _
      (λ p. settled-for_pin cfg.gpio_rst _ _ (λ q. panel) panel)
      (settled-for_pin cfg.gpio_rst _ _ (λ q. panel) panel)
