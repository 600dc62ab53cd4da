-- ===== src/Controller/Status.antt =====
-- What the controller makes of the lines of `mtx status`.
use fossilsafe_t.Prelude.{
  ℕ, String, Bool, true, false, not, ◌&&◌, Option, none, some, List, [], ◌∷◌, ltb, if◌then◌else◌,
  ◌==◌, nat_eq, string_eq, is_text, truth,
}
use fossilsafe_t.Controller.Hardware.{Line, slot_line, drive_line, mail_line, other_line}

-- The preferences of mail slots: enabled, detected by mtx, and the slot that is one otherwise.
pub record MailSlots : Type 0 where
  pub enabled : Bool
  pub auto_detect : Bool
  pub manual_index : ℕ

pub data Place : Type 0 where
  in_slot : Place
  in_mailslot : Place
  in_drive : Place

pub data Availability : Type 0 where
  available : Availability
  loaded : Availability
  empty : Availability

-- An entry of the inventory. What is shown only (location, alias) and the kinds of tape that the
-- barcode tells are left out.
pub record Entry : Type 0 where
  pub slot : Option ℕ
  pub slot_index : Option ℕ
  pub barcode : Option String
  pub status : Availability
  pub location_type : Place
  pub drive_index : Option ℕ
  pub drive_source_slot : Option ℕ

-- `match.group(n) if match.group(n) else None`
abbrev pub or_none : Option String → Option String
or_none b = if truth b then b else none

abbrev pub index_if_slot : Place → ℕ → Option ℕ
index_if_slot in_slot n = some n
index_if_slot in_mailslot n = none
index_if_slot in_drive n = none

unfoldable pub element_entry : Place → ℕ → Bool → Option String → Entry
element_entry place n full tag = record {
  slot = some n;
  slot_index = index_if_slot place n;
  barcode = if full then or_none tag else none;
  status = if full then available else empty;
  location_type = place;
  drive_index = none;
  drive_source_slot = none;
}

unfoldable pub drive_entry : ℕ → Bool → Option ℕ → Option String → Entry
drive_entry n full source tag = record {
  slot = none;
  slot_index = none;
  barcode = if full then or_none tag else none;
  status = if full then loaded else empty;
  location_type = in_drive;
  drive_index = some n;
  drive_source_slot = if full then source else none;
}

unfoldable pub slot_place : MailSlots → ℕ → Place
slot_place m n =
    if m.enabled && (not m.auto_detect && (ltb 0 m.manual_index && n == m.manual_index))
    then in_mailslot
    else in_slot

unfoldable pub mail_place : MailSlots → Place
mail_place m = if m.enabled && m.auto_detect then in_mailslot else in_slot

unfoldable pub parse_mtx_status : MailSlots → List Line → List Entry
unfolding element_entry drive_entry slot_place mail_place
parse_mtx_status m [] = []
parse_mtx_status m (slot_line n full tag ∷ lines) =
    element_entry (slot_place m n) n full tag ∷ parse_mtx_status m lines
parse_mtx_status m (drive_line n full source tag ∷ lines) =
    drive_entry n full source tag ∷ parse_mtx_status m lines
parse_mtx_status m (mail_line n full tag ∷ lines) =
    element_entry (mail_place m) n full tag ∷ parse_mtx_status m lines
parse_mtx_status m (other_line ∷ lines) = parse_mtx_status m lines

pub record DriveStatus : Type 0 where
  pub is_available : Bool
  pub in_use : Bool
  pub loaded_tape : Option String
  pub source_slot : Option ℕ

abbrev pub no_status : DriveStatus
no_status = record { is_available = false; in_use = false; loaded_tape = none; source_slot = none }

-- The first line of the controller's drive decides.
unfoldable pub drive_status_of : ℕ → List Line → DriveStatus
drive_status_of drive [] = record {
  is_available = true;
  in_use = false;
  loaded_tape = none;
  source_slot = none;
}
drive_status_of drive (drive_line n full source tag ∷ lines) =
    let rest = drive_status_of drive lines in
    if n == drive
    then record {
      is_available = true;
      in_use = full;
      loaded_tape = if full then or_none tag else none;
      source_slot = source;
    }
    else rest
drive_status_of drive (slot_line n full tag ∷ lines) = drive_status_of drive lines
drive_status_of drive (mail_line n full tag ∷ lines) = drive_status_of drive lines
drive_status_of drive (other_line ∷ lines) = drive_status_of drive lines

-- The slot of the first entry with the barcode, which may have none.
unfoldable pub slot_of : String → List Entry → Option ℕ
slot_of barcode [] = none
slot_of barcode (e ∷ entries) =
    let rest = slot_of barcode entries in if is_text e.barcode barcode then e.slot else rest

-- The first line `Storage Element n:Empty`.
unfoldable pub empty_slot : List Line → Option ℕ
empty_slot [] = none
empty_slot (slot_line n full tag ∷ lines) =
    let rest = empty_slot lines in if full then rest else some n
empty_slot (drive_line n full source tag ∷ lines) = empty_slot lines
empty_slot (mail_line n full tag ∷ lines) = empty_slot lines
empty_slot (other_line ∷ lines) = empty_slot lines
