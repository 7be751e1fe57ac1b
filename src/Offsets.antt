-- ===== src/Offsets.antt =====
-- src/core/offsets.cpp: the offsets that a load takes from the game data and the schema. What the SDK
-- finds for a name is the parameter `find`, negative where it finds nothing; names are those of the
-- constructors.
use cs2_bot_hider.Base.{Bool, true, false, ◌||◌, ◌&&◌, List, [], ◌∷◌, if◌then◌else◌}
use cs2_bot_hider.Base.Int.{ℤ, pos, negsuc, ltb_ℤ, leb_ℤ}

-- The bindings of `LoadFromGamedata`, in their order.
pub data Offset : Type 0 where
  name entity_index net_channel connection_type_flags fake_player user_id steam_id steam_id_mirror
        is_hltv client_list identity_chunks identity_size identity_instance identity_class_name :
      Offset

abbrev pub offsets : List Offset
offsets =
    Offset.name ∷ Offset.entity_index ∷ Offset.net_channel ∷ Offset.connection_type_flags
    ∷ Offset.fake_player ∷ Offset.user_id ∷ Offset.steam_id ∷ Offset.steam_id_mirror
    ∷ Offset.is_hltv ∷ Offset.client_list ∷ Offset.identity_chunks ∷ Offset.identity_size
    ∷ Offset.identity_instance ∷ Offset.identity_class_name ∷ []

abbrev pub is_size : Offset → Bool
is_size Offset.identity_size = true
is_size _ = false

abbrev pub is_zero : ℤ → Bool
is_zero value = leb_ℤ value (pos 0) && leb_ℤ (pos 0) value

module _ (find : Offset → ℤ) where
  unfoldable pub is_invalid : Offset → Bool
  is_invalid offset = ltb_ℤ (find offset) (pos 0) || (is_size offset && is_zero (find offset))

  -- The names of the error text.
  unfoldable pub invalid_offsets : List Offset → List Offset
  invalid_offsets [] = []
  invalid_offsets (offset ∷ rest) =
      let later = invalid_offsets rest in if is_invalid offset then offset ∷ later else later

  unfoldable pub load_from_gamedata : List Offset × Bool
  load_from_gamedata =
      let invalid = invalid_offsets offsets in (invalid, elim invalid [ [] ↦ true | _ ∷ _ ↦ false ])

-- `LoadFromSchema`: the offset of a controller's pawn handle, and whether the flags' field was found.
unfoldable pub load_from_schema : Bool → Bool → ℤ → ℤ → ℤ → ℤ × Bool
load_from_schema schema_ready fields_ready previous pawn player_pawn =
    if fields_ready
    then (
      if schema_ready then (if leb_ℤ (pos 0) player_pawn then player_pawn else pawn) else negsuc 0,
      true,
    )
    else (previous, false)
