-- ===== src/Echomixer/Meters/Windows.antt =====
-- The card's meters are on exactly while one of the windows is there.
use dreamscape.Base.{
  ℕ, ◌≡◌, refl, sym, subst, Bool, true, false, not, ◌||◌, [], ◌∷◌, ◌==◌, if◌then◌else◌, ==_refl,
}
use dreamscape.Base.Int.{ℤ, pos, ◌+ℤ◌, ◌-ℤ◌}
use dreamscape.Echomixer.{card, set_at, zeros, Log, elem_read, elem_write, Alsa, Card}
use dreamscape.Echomixer.Meters.{
  Meters, switch_value, initial_meters, set_vumeters, vuwindow_destroy, gmwindow_destroy,
  vumeters_button_click, gmixer_button_click, vuwindow_delete, gmwindow_delete, mainwindow_delete,
}

-- What a user can do while the main window is there.
pub data Event : Type 0 where
  vu_toggled gm_toggled vu_deleted gm_deleted : Event

module _ (a : Alsa) (c : Card) where
  abbrev pub step : Event → Meters → Meters
  step vu_toggled s = vumeters_button_click a c (record s { vu_button = not s.vu_button })
  step gm_toggled s = gmixer_button_click a c (record s { gm_button = not s.gm_button })
  step vu_deleted s = if s.vu_window then vuwindow_delete a c s else s
  step gm_deleted s = if s.gm_window then gmwindow_delete a c s else s

  -- The states that any sequence of events leads to.
  pub data Reach : Meters → Type 0 where
    start : Reach initial_meters
    later : {s : Meters} → Reach s → (e : Event) → Reach (step e s)

-- What the switch was last set to; before that it is off.
abbrev pub switched : (id : ℕ) → Log → ℤ
switched id [] = pos 0
switched id (elem_read iface n reply ∷ t) = switched id t
switched id (elem_write iface n row err ∷ t) = if n == id then row 0 else switched id t

abbrev pub count_of : (vu gm : Bool) → ℤ
count_of false false = pos 0
count_of true false = pos 1
count_of false true = pos 1
count_of true true = pos 2

-- The count is that of the windows, each button says whether its window is there, and the switch is
-- on exactly if there is one.
pub record Metered (c : Card) (s : Meters) : Type 0 where
  pub count : s.oncount ≡ count_of s.vu_window s.gm_window
  pub vu : s.vu_button ≡ s.vu_window
  pub gm : s.gm_button ≡ s.gm_window
  pub switch : switched c.vuswitch_id s.log ≡ (if s.vu_window || s.gm_window then pos 1 else pos 0)

-- No window is left, nor a reason to have the meters on.
pub record Closed (c : Card) (s : Meters) : Type 0 where
  pub count : s.oncount ≡ pos 0
  pub vu : s.vu_window ≡ false
  pub gm : s.gm_window ≡ false
  pub switch : switched c.vuswitch_id s.log ≡ pos 0

-- The state with these windows and this log.
abbrev shown : (vu gm : Bool) → Log → Meters
shown vu gm t = record {
  oncount = count_of vu gm;
  vu_window = vu;
  gm_window = gm;
  vu_button = vu;
  gm_button = gm;
  log = t;
}

Metered-shown : (c : Card) (s : Meters) → Metered c s → s ≡ shown s.vu_window s.gm_window s.log
Metered-shown c s m = λ i. record {
  oncount = m.count i;
  vu_window = s.vu_window;
  gm_window = s.gm_window;
  vu_button = m.vu i;
  gm_button = m.gm i;
  log = s.log;
}

module _ (a : Alsa) (c : Card) where
  -- After `set_vumeters` the switch is as the count says.
  switched-Metered :
      (vu gm : Bool) (err : ℤ) (t : Log)
      → Metered c (
          shown vu gm (
            elem_write card c.vuswitch_id (set_at zeros 0 (switch_value (count_of vu gm))) err ∷ t))
  switched-Metered vu gm err t = record {
    count = refl;
    vu = refl;
    gm = refl;
    switch = rw (==_refl c.vuswitch_id) (value vu gm);
  }
    where
      value : (vu gm : Bool) → switch_value (count_of vu gm) ≡ (if vu || gm then pos 1 else pos 0)
      value false false = refl
      value false true = refl
      value true false = refl
      value true true = refl

  -- Each event in each of the four states.
  shown-Metered :
      (e : Event) (vu gm : Bool) (t : Log)
      → Metered c (shown vu gm t)
      → Metered c (step a c e (shown vu gm t))
  unfolding vumeters_button_click gmixer_button_click vuwindow_delete gmwindow_delete
      vuwindow_destroy gmwindow_destroy set_vumeters ◌+ℤ◌ ◌-ℤ◌
  shown-Metered vu_toggled false false t m = switched-Metered true false _ t
  shown-Metered vu_toggled false true t m = switched-Metered true true _ t
  shown-Metered vu_toggled true false t m = switched-Metered false false _ t
  shown-Metered vu_toggled true true t m = switched-Metered false true _ t
  shown-Metered gm_toggled false false t m = switched-Metered false true _ t
  shown-Metered gm_toggled false true t m = switched-Metered false false _ t
  shown-Metered gm_toggled true false t m = switched-Metered true true _ t
  shown-Metered gm_toggled true true t m = switched-Metered true false _ t
  shown-Metered vu_deleted false false t m = m
  shown-Metered vu_deleted false true t m = m
  shown-Metered vu_deleted true false t m = switched-Metered false false _ t
  shown-Metered vu_deleted true true t m = switched-Metered false true _ t
  shown-Metered gm_deleted false false t m = m
  shown-Metered gm_deleted false true t m = switched-Metered false false _ t
  shown-Metered gm_deleted true false t m = m
  shown-Metered gm_deleted true true t m = switched-Metered true false _ t

  step-Metered : (e : Event) (s : Meters) → Metered c s → Metered c (step a c e s)
  step-Metered e s m =
      let same = Metered-shown c s m in
      subst (λ r. Metered c (step a c e r)) (sym same)
        (shown-Metered e s.vu_window s.gm_window s.log (subst (Metered c) same m))

  reached-Metered : {s : Meters} → Reach a c s → Metered c s
  unfolding initial_meters
  reached-Metered start = record { count = refl; vu = refl; gm = refl; switch = refl }
  reached-Metered (later {s} r e) = step-Metered e s (reached-Metered r)

  -- Closing the main window in each of the four states.
  shown-Closed :
      (vu gm : Bool) (t : Log)
      → Metered c (shown vu gm t)
      → Closed c (mainwindow_delete a c (shown vu gm t))
  unfolding mainwindow_delete vuwindow_destroy gmwindow_destroy set_vumeters ◌+ℤ◌ ◌-ℤ◌
  shown-Closed false false t m = record { count = refl; vu = refl; gm = refl; switch = m.switch }
  shown-Closed false true t m = record {
    count = refl;
    vu = refl;
    gm = refl;
    switch = rw (==_refl c.vuswitch_id) refl;
  }
  shown-Closed true false t m = record {
    count = refl;
    vu = refl;
    gm = refl;
    switch = rw (==_refl c.vuswitch_id) refl;
  }
  shown-Closed true true t m = record {
    count = refl;
    vu = refl;
    gm = refl;
    switch = rw (==_refl c.vuswitch_id) refl;
  }

  mainwindow_delete-Closed : (s : Meters) → Metered c s → Closed c (mainwindow_delete a c s)
  mainwindow_delete-Closed s m =
      let same = Metered-shown c s m in
      subst (λ r. Closed c (mainwindow_delete a c r)) (sym same)
        (shown-Closed s.vu_window s.gm_window s.log (subst (Metered c) same m))

  -- In every state that the user can reach with the buttons and the windows of the meters, while the
  -- main window is there, the count is that of the windows, each button says whether its window is
  -- there, and the card's meters were last switched on if there is a window and off if there is none.
  -- Where the main window is closed in such a state, no window is left, the count is 0, and the meters
  -- were last switched off.
  pub Reach-Metered : {s : Meters} → Reach a c s → Metered c s × Closed c (mainwindow_delete a c s)
  Reach-Metered {s} r = (reached-Metered r, mainwindow_delete-Closed s (reached-Metered r))
