-- ===== src/Echomixer/Mouse/Dragged.antt =====
-- A cell of the monitor mixer that is clicked and dragged.
use dreamscape.Base.{ℕ, ◌≡◌, ◌≢◌}
use dreamscape.Base.Int.{ℤ}
use dreamscape.Echomixer.{Alsa, Card, Console, Gtk}
use dreamscape.Echomixer.Gain.{invert}
use dreamscape.Echomixer.Volumes.Ganged.{SetsValue}
use dreamscape.Echomixer.Mouse.{Mouse}
use dreamscape.Echomixer.Mouse.Shown.{Shows}

module _ (a : Alsa) (c : Card) (g : Gtk) (gtk : SetsValue g) where
  -- The slider of the selected cell is set to v.
  pub record Moved (row column : ℕ) (v : ℤ) (s s' : Console) : Type 0 where
    pub input : s'.input ≡ row
    pub output : s'.output ≡ column
    pub gain : s'.mixer_gain column row ≡ invert v
    pub others : (k : ℕ) → column ≢ k → s'.mixer_gain k row ≡ s.mixer_gain k row
    pub shows : Shows c s'
