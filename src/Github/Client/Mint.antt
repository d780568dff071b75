-- ===== src/Github/Client/Mint.antt =====
-- mint, MintInstallationToken and MintInstallationTokenForOwner of github/client.go, with no other
-- call between the critical sections; Schedule interleaves them.
use packages_go.Prelude.{
  [], ◌∷◌, ◌++◌, Bytes, codes, is_empty, is_blank, contains_byte, ◌==◌, leb_ℤ, pos, if◌then◌else◌,
  ℤ,
}
use packages_go.Errors.{Result, ok, fail}
use packages_go.Github.Codes.{Code, invalid_config, invalid_permissions}
use packages_go.Github.Permissions.{Permissions}
use packages_go.Github.Client.{
  Client, Token, Request, Readings, Decision, cached, refused, reserved, request_key, reserve,
  settle,
}
use packages_go.Github.Client.Fresh.{Exchange, mint_fresh}

-- The part of mint behind the first critical section.
unfoldable pub after_reserve : Request → Exchange → Decision × Client → Result Code Token × Client
after_reserve r x (cached t, c) = (ok t, c)
after_reserve r x (refused code, c) = (fail code, c)
after_reserve r x (reserved armed_at, c) =
    let (outcome, c') = mint_fresh r x c in (outcome, settle (request_key r) armed_at outcome c')

unfoldable pub mint : Request → Readings → Exchange → Client → Result Code Token × Client
unfolding after_reserve
mint r now x c =
    if leb_ℤ r.installation (pos 0)
    then (fail invalid_config, c)
    else if is_empty r.permissions
    then (fail invalid_permissions, c)
    else after_reserve r x (reserve (request_key r) now c)

-- The part behind the last "/", and the whole when there is none.
unfoldable pub repository_name : Bytes → Bytes
repository_name [] = []
repository_name (c ∷ s) =
    let rest = repository_name s in
    if contains_byte b'/' s then rest else if c == b'/' then s else c ∷ s

abbrev pub repo_request : ℤ → Bytes → Permissions → Request
repo_request installation repo permissions = record {
  installation = installation;
  label = repo;
  repos = repository_name repo ∷ [];
  permissions = permissions;
}

abbrev pub owner_request : ℤ → Bytes → Permissions → Request
owner_request installation owner permissions = record {
  installation = installation;
  label = codes "owner:" ++ owner;
  repos = [];
  permissions = permissions;
}

unfoldable pub mint_installation_token :
    ℤ → Bytes → Permissions → Readings → Exchange → Client → Result Code Token × Client
unfolding mint
mint_installation_token installation repo permissions now x c =
    if is_blank repo
    then (fail invalid_config, c)
    else mint (repo_request installation repo permissions) now x c

unfoldable pub mint_installation_token_for_owner :
    ℤ → Bytes → Permissions → Readings → Exchange → Client → Result Code Token × Client
unfolding mint
mint_installation_token_for_owner installation owner permissions now x c =
    if is_blank owner
    then (fail invalid_config, c)
    else mint (owner_request installation owner permissions) now x c
