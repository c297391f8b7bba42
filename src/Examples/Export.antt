-- ===== src/Examples/Export.antt =====
-- A run of the export of crates/secrets-client/src/commands.rs.
use secrets_manager.Prelude.{
  ◌≡◌, refl, some, [], ◌∷◌, length, Bytes, ascii, BTreeMap, btree_insert, ◌=ᵇ◌, bytes_leb,
}
use secrets_manager.Client.Received.{secret_map_from_plain, valid_secret_key}
use secrets_manager.Client.Dotenv.{export_text}
use secrets_manager.Client.Export.{read_dotenv, read_dotenv-export}

abbrev two_secrets : BTreeMap Bytes
two_secrets = (ascii "A", ascii "x\"y") ∷ (ascii "B", ascii "1") ∷ []

read_dotenv-export_example :
    read_dotenv (length two_secrets) (export_text two_secrets) ≡ some two_secrets
unfolding secret_map_from_plain btree_insert valid_secret_key ◌=ᵇ◌ bytes_leb
read_dotenv-export_example = read_dotenv-export two_secrets two_secrets refl
