-- ===== src/Mode/Remote/Uploads.antt =====
-- mode/mode_remote.go: what is uploaded for a play beside its files, the inventory and the vault
-- files.
use terraform_provisioner_an.Base.{not, List, [], ◌∷◌, ◌++◌, Text, text, is_empty, if◌then◌else◌}
use terraform_provisioner_an.Go.Path.{path_join}
use terraform_provisioner_an.Types.Helpers.{resolve_path}
use terraform_provisioner_an.Types.Play.{Play}
use terraform_provisioner_an.Types.Play.Settings.{
  hosts_of, groups_of, inventory_file_of, vault_id_of, vault_password_file_of,
  set_override_vault_id, set_override_vault_password_path,
}
use terraform_provisioner_an.Mode.Hosts.{remote_inventory}
use terraform_provisioner_an.Mode.Remote.{Remote, Action, pure, lift, ◌>>=◌, ◌>>◌, draw, upload}

abbrev pub appended_id : Text → List Text → List Text
appended_id path ids = if not (is_empty path) then path ∷ ids else ids

module _ (remote : Remote) where
  unfoldable pub upload_vault_password_or_id_file : Text → Text → Action Text
  upload_vault_password_or_id_file destination source = if is_empty source then pure [] else do
    source ← lift (resolve_path remote.files source)
    u1 ← draw remote
    let target_path = path_join destination (text ".vault-file-" ++ u1)
    file ← lift (remote.read_file source)
    upload remote target_path file
    pure target_path

  unfoldable pub upload_vault_ids : Text → List Text → Action (List Text)
  upload_vault_ids destination [] = pure []
  upload_vault_ids destination (vault_id ∷ rest) = do
    uploaded ← upload_vault_password_or_id_file destination vault_id
    ids ← upload_vault_ids destination rest
    pure (appended_id uploaded ids)

  -- "always handle Vault ID or password file"
  unfoldable pub upload_vault : Text → Play → Action Play
  upload_vault destination play =
      if not (is_empty (vault_id_of play))
      then (do
        ids ← upload_vault_ids destination (vault_id_of play)
        pure (set_override_vault_id play ids))
      else (do
        uploaded ← upload_vault_password_or_id_file destination (vault_password_file_of play)
        pure (set_override_vault_password_path play uploaded))

  unfoldable pub write_inventory : Text → Play → Action Text
  write_inventory destination play =
      if not (is_empty (inventory_file_of play))
      then (do
        source ← lift (resolve_path remote.files (inventory_file_of play))
        u1 ← draw remote
        let target_path = path_join destination (text ".inventory-" ++ u1)
        file ← lift (remote.read_file source)
        upload remote target_path file
        pure target_path)
      else (do
        u1 ← draw remote
        let target_path = path_join destination (text ".inventory-" ++ u1)
        upload remote target_path (remote_inventory (hosts_of play) (groups_of play))
        pure target_path)
