-- ===== src/Detours/Install.antt =====
-- How src/features/identity/identity_hooks.cpp installs and removes its detours. The hook library and
-- the resolution of signatures are parameters: `resolve` gives a signature's address, `installs` says
-- whether a detour can be installed at an address.
use cs2_bot_hider.Base.{ℕ, Bool, true, false, ◌&&◌, not, Option, none, some, ◌==◌, if◌then◌else◌}
use cs2_bot_hider.Base.Int.{ℤ, pos, negsuc, ltb_ℤ}

pub data Hook : Type 0 where
  quota voters join_team human_team pack end_match script_is_bot : Hook

-- One detour: its target, and whether it is installed.
pub record Binding : Type 0 where
  pub target : Option ℕ
  pub active : Bool

pub record Bindings : Type 0 where
  pub quota_hook : Binding
  pub voters_hook : Binding
  pub join_team_hook : Binding
  pub human_team_hook : Binding
  pub pack_hook : Binding
  pub end_match_hook : Binding
  pub script_is_bot_hook : Binding
  pub pick_new_teams_on_reset_offset : ℤ

abbrev pub has_target : Option ℕ → Bool
has_target none = false
has_target (some target) = true

abbrev pub removed : Binding → Binding
removed b = record b { active = false }

abbrev pub cleared_target : Binding → Binding
cleared_target b = record b { target = none }

module _ (resolve : Hook → Option ℕ) where
  abbrev pub prepared : Hook → Binding → Binding
  prepared hook b = record b { target = resolve hook }

  -- `engine_code` says whether the engine's code is available, and `offset` is that of the team reset.
  unfoldable pub prepare_pack_entities_hook : Bool → Binding → Binding
  prepare_pack_entities_hook engine_code b = if not engine_code then b else prepared Hook.pack b

  unfoldable pub prepare_same_map_teardown_hook : ℤ → Bindings → Bindings
  prepare_same_map_teardown_hook offset b =
      let found = record b { pick_new_teams_on_reset_offset = offset } in
      if not (has_target (resolve Hook.end_match))
      then b
      else if ltb_ℤ offset (pos 0)
      then found
      else record found { end_match_hook = prepared Hook.end_match b.end_match_hook }

  unfoldable pub prepare_all : Bool → ℤ → Bindings → Bindings
  prepare_all engine_code offset b = prepare_same_map_teardown_hook offset (record b {
    quota_hook = prepared Hook.quota b.quota_hook;
    voters_hook = prepared Hook.voters b.voters_hook;
    join_team_hook = prepared Hook.join_team b.join_team_hook;
    human_team_hook = prepared Hook.human_team b.human_team_hook;
    pack_hook = prepare_pack_entities_hook engine_code b.pack_hook;
    script_is_bot_hook = prepared Hook.script_is_bot b.script_is_bot_hook;
  })

module _ (installs : Hook → ℕ → Bool) where
  unfoldable pub install_hook : Hook → Binding → Binding
  install_hook hook b = elim b.target [
    | none ↦ b
    | some target ↦
        if installs hook target
        then record b { active = true }
        else record { target = none; active = false }
  ]

  unfoldable pub install_prepared : Bool → Bindings → Bindings
  install_prepared util_remove_target b =
      let packing = install_hook Hook.pack b.pack_hook in
      record b {
        quota_hook = install_hook Hook.quota b.quota_hook;
        voters_hook = install_hook Hook.voters b.voters_hook;
        join_team_hook = install_hook Hook.join_team b.join_team_hook;
        human_team_hook = install_hook Hook.human_team b.human_team_hook;
        pack_hook = packing;
        end_match_hook = install_hook Hook.end_match b.end_match_hook;
        script_is_bot_hook =
            if packing.active && util_remove_target
            then install_hook Hook.script_is_bot b.script_is_bot_hook
            else cleared_target b.script_is_bot_hook;
      }

-- The names of what is missing make up the source's message; here it is whether any is.
unfoldable pub can_enable_disguise : Bindings → Bool → Bool → ℤ → Bool
can_enable_disguise b util_remove_target entity_system bot_pawn_handle_offset =
    b.quota_hook.active
    && (b.voters_hook.active
        && (b.join_team_hook.active
            && (b.human_team_hook.active
                && (b.pack_hook.active
                    && (b.end_match_hook.active
                        && (util_remove_target
                            && (entity_system && not (ltb_ℤ bot_pawn_handle_offset (pos 0)))))))))

unfoldable pub clear_bindings : Bindings → Bindings
clear_bindings b = record {
  quota_hook = cleared_target b.quota_hook;
  voters_hook = cleared_target b.voters_hook;
  join_team_hook = cleared_target b.join_team_hook;
  human_team_hook = cleared_target b.human_team_hook;
  pack_hook = cleared_target b.pack_hook;
  end_match_hook = cleared_target b.end_match_hook;
  script_is_bot_hook = cleared_target b.script_is_bot_hook;
  pick_new_teams_on_reset_offset = negsuc 0;
}

-- `hook_depth` is the number of callbacks that have not returned.
unfoldable pub remove : ℕ → Bindings → Bindings × Bool
remove hook_depth b = if not (hook_depth == 0) then (b, false) else (
  clear_bindings (record b {
    quota_hook = removed b.quota_hook;
    voters_hook = removed b.voters_hook;
    join_team_hook = removed b.join_team_hook;
    human_team_hook = removed b.human_team_hook;
    pack_hook = removed b.pack_hook;
    end_match_hook = removed b.end_match_hook;
    script_is_bot_hook = removed b.script_is_bot_hook;
  }),
  true,
)
