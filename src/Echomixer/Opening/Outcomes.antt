-- ===== src/Echomixer/Opening/Outcomes.antt =====
-- What OpenControls ends with: the ids that it finds, and why it does not go on.
use dreamscape.Base.{ℕ, ◌≡◌, ◌≢◌, true, false, none, some, List, [], ◌∷◌, ◌==◌, if◌then◌else◌}
use dreamscape.Echomixer.{Alsa, Card, Console}
use dreamscape.Echomixer.Switches.{get_channels}
use dreamscape.Echomixer.Elements.{Element, Control}
use dreamscape.Echomixer.Opening.{Scan, card_of, matches}
use dreamscape.Echomixer.Opening.Steps.{keeps_first, is_control, IsUnnamed, IsCrowded}
use dreamscape.Echomixer.Opening.Sizes.{Size, owner, size_of, wanted_size}
use dreamscape.Echomixer.Opening.Chosen.{size_after}

-- An element of the list is so.
pub data Has (P : Element → Type 0) : List Element → Type 0 where
  here : {e : Element} {es : List Element} → P e → Has P (e ∷ es)
  there : {e : Element} {es : List Element} → Has P es → Has P (e ∷ es)

pub first_id : Control → List Element → ℕ
first_id k [] = 0
first_id k (e ∷ es) = if is_control k e then e.numid else first_id k es

pub last_id : Control → List Element → ℕ
last_id k [] = 0
last_id k (e ∷ es) =
    let later = last_id k es in
    if later == 0 then (if is_control k e then e.numid else 0) else later

abbrev pub wanted_id : Control → List Element → ℕ
wanted_id k es = if keeps_first k then first_id k es else last_id k es

-- The id after some elements, from an earlier one.
abbrev id_after : Control → List Element → ℕ → ℕ
id_after k es old =
    if keeps_first k
    then (if old == 0 then first_id k es else old)
    else (if last_id k es == 0 then old else last_id k es)

-- The ids of ALSA's elements count from 1.
abbrev pub Numbered : List Element → Type 0
Numbered [] = Unit {0}
Numbered (e ∷ es) = (e.numid ≢ 0) × Numbered es

record Reached (es : List Element) (r r' : Scan) : Type 0 where
  known : (k : Control) → r'.ids k ≡ id_after k es (r.ids k)
  large : (q : Size) → size_of q r' ≡ size_after q es (r.ids (owner q)) (size_of q r)

-- Why there is none: an element that ALSA says nothing of, one with an item that it does not name, or
-- one with too many.
abbrev pub Silent : List Element → Type 0
Silent = Has (λ e. e.info_fails ≡ true)

abbrev pub Unnamed : List Element → Type 0
Unnamed = Has IsUnnamed

abbrev pub Crowded : List Element → Type 0
Crowded = Has IsCrowded

-- The ids are those of the elements wanted, and the sizes are their dimensions.
pub record Scanned (es : List Element) (r : Scan) : Type 0 where
  pub wanted : (k : Control) → r.ids k ≡ wanted_id k es
  pub tables : (q : Size) → size_of q r ≡ wanted_size q es

-- So it is, and the tables are as large as the channels that the card names.
pub record Opened (a : Alsa) (es : List Element) (s : Console) (o : Scan × Card × Console)
    : Type 0 where
  pub scanned : Scanned es o.0
  pub sized : matches o.0 o.1 ≡ true
  pub told : get_channels a (card_of o.0) s ≡ some (o.1, o.2)

-- The channels could not be read, or are not those of the tables.
abbrev pub NoChannels : Alsa → List Element → Console → Type 0
NoChannels a es s = (r : Scan) × Scanned es r × (get_channels a (card_of r) s ≡ none)

abbrev pub Mismatched : Alsa → List Element → Console → Type 0
Mismatched a es s =
    (r : Scan) × (c : Card) × (s' : Console) × Scanned es r
    × (get_channels a (card_of r) s ≡ some (c, s'))
    × (matches r c ≡ false)
