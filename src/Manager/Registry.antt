-- ===== src/Manager/Registry.antt =====
-- kmodule/group_dev_manager.c: `init_group_devs`, `get_group` and `install_group`.
use aosv_project.Prelude.{
  ℕ, ◌+◌, ◌%◌, ◌^◌, Bool, true, List, [], ◌∷◌, ◌++◌, Option, none, some, ◌==◌, ltb, leb,
  if◌then◌else◌, ℤ, pos, minus_one, list_empty,
}
use aosv_project.Kernel.{Run, done, oops}
use aosv_project.Device.{GroupDev}
use aosv_project.Manager.{Manager, Global, unset, dangling, good, GroupDevices, group_dev_count}
use aosv_project.Manager.Install.{Setup, install_device}

-- The label `list_fail` frees the structure, and leaves the global pointer at it.
unfoldable pub init_group_devs : (struct_block list_block : Bool) → Global × ℤ
init_group_devs struct_block list_block =
    if struct_block
    then (if list_block
        then (good (record { used = 0; major = 0; group_devs_list = [] }), pos 0)
        else (dangling, minus_one))
    else (unset, minus_one)

-- `_get_group`
unfoldable pub find_group : ℕ → List GroupDev → Option GroupDev
find_group desc [] = none
find_group desc (gd ∷ gds) = if gd.minor == desc then some gd else find_group desc gds

unfoldable pub get_group : ℕ → GroupDevices → Option GroupDev
unfolding find_group
get_group desc gs =
    if list_empty gs.group_devs_list then none else find_group desc gs.group_devs_list

-- From a good `group_devs` on.
unfoldable pub install_missing : Setup → ℕ → Manager → GroupDevices → Manager × ℤ
install_missing u desc m gs =
    if ltb group_dev_count (gs.used + 1)
    then (m, minus_one)
    else (let r = install_device u desc gs.major in
        elim r.device [
          | none ↦ (
            record m { group_devs = good (record gs { major = r.major }); lost = r.held ++ m.lost },
            minus_one,
          )
          | some gd ↦ (
            record m {
              group_devs = good (record {
                used = (gs.used + 1) % 2 ^ 16;
                major = r.major;
                group_devs_list = gd ∷ gs.group_devs_list;
              });
              group_dev_class = true;
              nodes = desc ∷ m.nodes;
              parts = λ i. if i == desc then r.held else m.parts i;
            },
            pos 0,
          )
        ])

unfoldable pub install_known : Setup → ℕ → Manager → Global → Run (Manager × ℤ)
unfolding install_missing
install_known u desc m unset = oops
install_known u desc m dangling = oops
install_known u desc m (good gs) = elim (get_group desc gs) [
  | some gd ↦ done (record m { group_devs = good gs }, pos 0)
  | none ↦ done (install_missing u desc (record m { group_devs = good gs }) gs)
]

abbrev global_after : (struct_block list_block : Bool) → Global → Global
global_after sb lb unset = (init_group_devs sb lb).0
global_after sb lb g = g

-- `group_desc` is null, or points to an `unsigned char`.
unfoldable pub install_group :
    (struct_block list_block : Bool) → Setup → (group_desc : Option ℕ) → Manager → Run (Manager × ℤ)
unfolding install_known init_group_devs
install_group sb lb u none m = done (m, minus_one)
install_group sb lb u (some desc) m =
    if leb group_dev_count desc
    then done (m, minus_one)
    else (let g = global_after sb lb m.group_devs in
        install_known u desc (record m { group_devs = g }) g)
