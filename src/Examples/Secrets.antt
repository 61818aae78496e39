-- ===== src/Examples/Secrets.antt =====
-- crates/nxb-vault: a secret, a lease on it, and what came of them.
use bound_seal.Vault.Revoking.{no_revoked_secret}
use bound_seal.Vault.Spending.{no_second_materialization, run-verify}
use bound_seal.Vault.Sources.{materialize_sound, IsGranted}
use bound_seal.Std.Int.{decimal_i64, pos}
use bound_seal.Vault.Histories.{purges, step, run, Call, leases_out, inserts}
use bound_seal.Std.Order.{list_ord, nat_ord}
use bound_seal.Vault.Cookies.{validate_request_target}
use bound_seal.Audit.{to_lower_hex, hash_material}
use bound_seal.Vault.Types.{
  kind_code, LeaseState, SecretInput, by_header, bearer_token, SecretLease, VaultAccessContext,
  SecretHeaderLease,
}
use bound_seal.Std.Collections.{map_retain, map_get, map_insert, contains, set_insert}
use bound_seal.Vault.Chain.{verify_chain, push_event, VaultLib, append_event, new_chain}
use bound_seal.Vault.Store.Materializing.{
  header_parts, entry_part, has_cookie, parts_of, materialize_http_headers,
  header_lease_fingerprint, headers_of, eq_context, check_state, materialize_state,
}
use bound_seal.Vault.Checks.{
  normalize_scheme, normalize_host, normalize_host, collect_set, normalized_binding,
  validate_header_name, validate_entry_access, is_protocol_managed_header, has_identity,
  validate_secret_input, validate_entry_identity, validate_ids, normalized_context,
  validate_delivery, validate_header_value, validate_identifier,
}
use bound_seal.Std.Text.{ends_with, padded, Text, text, trim_end_matches, decimal}
use bound_seal.Vault.Store.{
  revoked_state, revoke_holders, lease_handle, check_entry, check_handles, check_lease,
  InMemorySecretVault, delivery_metadata, secret_handle,
}
use bound_seal.Common.{◌≢◌, u64_max, ◌<◌, arith, some, List, none, ok, false, [], ◌∷◌, ◌≡◌, refl}
use bound_seal.Vault.Store.Operations.{revoke_secret, emergency_purge, lease, insert, new}

abbrev no_hashes : VaultLib
no_hashes = record {
  hashes = record { to_vec = λ _. ok []; sha256 = λ _. [] };
  fingerprint_bytes = λ _. [];
}

abbrev input : SecretInput
input = record {
  kind = bearer_token;
  value = text "abc";
  binding = record {
    run_id = text "r";
    worker_id = text "w";
    account_id = text "a";
    tenant_id = text "t";
    role_id = text "o";
    allowed_hosts = text "Example.com" ∷ [];
    allowed_schemes = text "https" ∷ [];
  };
  delivery = by_header (text "Authorization") (text "Bearer ");
  expires_at_epoch_seconds = none;
}

abbrev context : VaultAccessContext
context = record {
  run_id = text "r";
  worker_id = text "w";
  account_id = text "a";
  tenant_id = text "t";
  role_id = text "o";
  authority = text "example.com";
  scheme = text "https";
}

abbrev handle : Text
handle = text "v-secret-00000000000000000001"

abbrev held : SecretLease
held = record {
  lease_id = text "v-lease-00000000000000000001";
  context = context;
  expires_at_epoch_seconds = pos 11;
  consumed = false;
}

abbrev state : LeaseState
state = record {
  handles = handle ∷ [];
  context = context;
  expires_at_epoch_seconds = pos 11;
  consumed = false;
  revoked = false;
}

abbrev given : SecretHeaderLease
given = record {
  lease_id = held.lease_id;
  session_id = text "s";
  authority = text "example.com";
  scheme = text "https";
  expires_at_epoch_seconds = pos 11;
  fingerprint = [];
  headers =
      record {
        normalized_name = text "authorization";
        wire_name = text "Authorization";
        value = text "Bearer abc";
      }
      ∷ [];
  consumed = false;
}

abbrev start : InMemorySecretVault
start = record {
  vault_id = text "v";
  entries = [];
  leases = [];
  next_secret_id = 1;
  next_lease_id = 1;
  audit = record { genesis_hash = []; records = []; tail_hash = [] };
}

abbrev before : List Call
before = inserts input (pos 0) ∷ leases_out (handle ∷ []) context (pos 10) (pos 1) ∷ []

started : new no_hashes (text "v") ≡ ok start
unfolding new validate_identifier new_chain to_lower_hex text
started = refl

headers_given :
    (materialize_http_headers no_hashes
      (run no_hashes start before)
      held
      (text "s")
      (text "/")
      (pos 2)).0
    ≡ ok given
unfolding run step insert lease materialize_http_headers materialize_state check_state parts_of
    entry_part headers_of header_parts has_cookie eq_context header_lease_fingerprint
    validate_secret_input validate_header_value validate_header_name normalized_binding validate_ids
    validate_identifier collect_set normalize_host normalize_scheme validate_delivery
    is_protocol_managed_header secret_handle lease_handle delivery_metadata check_lease
    check_handles check_entry validate_entry_identity validate_entry_access has_identity
    normalized_context append_event push_event hash_material to_lower_hex validate_request_target
    set_insert contains map_get map_insert decimal decimal_i64 padded trim_end_matches ends_with
    kind_code text
headers_given = refl

materialize_sound_example : IsGranted (run no_hashes start before) held (text "/") (pos 2) given
materialize_sound_example =
    materialize_sound no_hashes (run no_hashes start before) held (text "s") (text "/") (pos 2)
      given headers_given

abbrev after_use : InMemorySecretVault
after_use =
    (materialize_http_headers no_hashes (run no_hashes start before) held (text "s") (text "/")
      (pos 2)).2

numbers_left : (run no_hashes after_use (purges ∷ [])).next_lease_id < u64_max
unfolding run step insert lease materialize_http_headers materialize_state check_state parts_of
    entry_part headers_of header_parts has_cookie eq_context header_lease_fingerprint
    validate_secret_input validate_header_value validate_header_name normalized_binding validate_ids
    validate_identifier collect_set normalize_host normalize_scheme validate_delivery
    is_protocol_managed_header secret_handle lease_handle delivery_metadata check_lease
    check_handles check_entry validate_entry_identity validate_entry_access has_identity
    normalized_context append_event push_event hash_material to_lower_hex validate_request_target
    set_insert contains map_get map_insert decimal decimal_i64 padded trim_end_matches ends_with
    kind_code text emergency_purge
numbers_left = let room : 2 < u64_max = omega arith in room

no_second_materialization_example :
    (materialize_http_headers no_hashes
      (run no_hashes after_use (purges ∷ []))
      held
      (text "s")
      (text "/")
      (pos 3)).0
    ≢ ok given
no_second_materialization_example =
    no_second_materialization no_hashes (text "v") start before (purges ∷ []) held held (text "s")
      (text "/") (text "s") (text "/") (pos 2) (pos 3) given given started headers_given refl
      numbers_left

run-verify_example : verify_chain no_hashes (run no_hashes start before).audit ≡ ok tt
run-verify_example = run-verify no_hashes (text "v") before start started

abbrev without_secret : InMemorySecretVault
without_secret = (revoke_secret no_hashes (run no_hashes start before) handle).1

secret_revoked :
    ((revoke_secret no_hashes (run no_hashes start before) handle).0 ≡ ok tt)
    × ((run no_hashes without_secret []).next_secret_id ≡ 2)
    × (map_get held.lease_id (run no_hashes without_secret []).leases ≡ some (revoked_state state))
unfolding run step insert lease revoke_secret revoke_holders validate_secret_input
    validate_header_value validate_header_name normalized_binding validate_ids validate_identifier
    collect_set normalize_host normalize_scheme validate_delivery is_protocol_managed_header
    secret_handle lease_handle delivery_metadata check_lease check_handles check_entry
    validate_entry_identity validate_entry_access has_identity normalized_context append_event
    push_event hash_material to_lower_hex set_insert contains map_get map_insert map_retain decimal
    decimal_i64 padded trim_end_matches ends_with kind_code text
secret_revoked = (refl, refl, refl)

no_revoked_secret_example :
    (materialize_http_headers no_hashes
      (run no_hashes without_secret [])
      held
      (text "s")
      (text "/")
      (pos 3)).0
    ≢ ok given
unfolding contains text
no_revoked_secret_example =
    no_revoked_secret no_hashes (text "v") start before [] handle held (text "s") (text "/") (pos 3)
      (revoked_state state) given started secret_revoked.0 (omega (arith, secret_revoked.1))
      secret_revoked.2 refl
