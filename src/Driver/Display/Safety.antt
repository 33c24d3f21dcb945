-- ===== src/Driver/Display/Safety.antt =====
-- driver/display: what holds of the runtime and of the calls whatever a client does.
pub mod St7735
pub mod St7789
pub mod Test7735
pub mod Test7789
pub mod Reach
pub mod Rules
use agcore.Prelude.{
  ℕ, ◌<◌, ◌≡◌, refl, ap, sym, ◌∙◌, List, [], ◌∷◌, ◌++◌, append_assoc, append-nil, Bool, true, false,
  not, ◌&&◌, ◌||◌, if◌then◌else◌, arith,
}
use agcore.Platform.{is_ok}
use agcore.Driver.Display.{Call, tx_param, tx_color, new_panel_io, PanelConfig, Display, Answers}
use agcore.Driver.Display.Region.{IsSized}

-- What is sent to the panel, and the call that makes the handle for it.
abbrev pub is_tx : Call → Bool
is_tx (tx_param c bytes) = true
is_tx (tx_color c pixels size) = true
is_tx c = false

abbrev pub is_open : Call → Bool
is_open (new_panel_io h dc cs clock notified) = true
is_open c = false

module _ (answer : Answers) where
  -- Whether there is a handle after calls, from the calls before and what was there.
  unfoldable pub handle_after : List Call → Bool → List Call → Bool
  handle_after before there [] = there
  handle_after before there (c ∷ cs) =
      handle_after (before ++ c ∷ []) (there || (is_open c && is_ok (answer before c))) cs

  -- Each transfer has a handle.
  unfoldable pub ordered : List Call → Bool → List Call → Bool
  ordered before there [] = true
  ordered before there (c ∷ cs) =
      (not (is_tx c) || there)
      && ordered (before ++ c ∷ []) (there || (is_open c && is_ok (answer before c))) cs

  handle_after_last :
      (before : List Call) (there : Bool) (cs : List Call) (c : Call)
      → handle_after before there (cs ++ c ∷ [])
        ≡ (handle_after before there cs || (is_open c && is_ok (answer (before ++ cs) c)))
  unfolding handle_after
  handle_after_last before there [] c = rw (append-nil before) refl
  handle_after_last before there (x ∷ cs) c =
      handle_after_last (before ++ x ∷ []) (there || (is_open x && is_ok (answer before x))) cs c
      ∙ rw (append_assoc before (x ∷ []) cs) refl

  ordered_last :
      (before : List Call) (there : Bool) (cs : List Call) (c : Call)
      → ordered before there cs ≡ true
      → (not (is_tx c) || handle_after before there cs) ≡ true
      → ordered before there (cs ++ c ∷ []) ≡ true
  unfolding ordered handle_after
  ordered_last before there [] c h k = ground (arith, k)
  ordered_last before there (x ∷ cs) c h k = ground (
    arith,
    h,
    ordered_last (before ++ x ∷ []) (there || (is_open x && is_ok (answer before x))) cs c,
    k,
  )

  -- The runtime and the calls of a display fit each other.
  pub record IsSafe (cfg : PanelConfig) (d : Display) : Type 0 where
    pub sized : IsSized cfg d.runtime
    pub direction : d.runtime.rotation < 4
    pub ready : (not d.runtime.initialized || d.runtime.panel_io) ≡ true
    pub handle : handle_after [] false d.calls ≡ d.runtime.panel_io
    pub sent : ordered [] false d.calls ≡ true
