-- ===== src/Wiring/Program.antt =====
-- What the wiring asks of the outside: the REST client of the appliance, the network, the clock
-- and the license file. A program is the tree of its calls: the answer to each picks the rest, and
-- a failure is the error that the function returns.
use autodeploy_web.Base.{ℕ, Bool, List, ◌∷◌, ◌++◌, Text, ℤ}

-- The connection of `veeam.New`.
pub record Server : Type 0 where
  pub base_url : Text
  pub username : Text
  pub password : Text
  pub insecure : Bool

pub record HaSpec : Type 0 where
  pub primary_node_ip : Text
  pub secondary_node_ip : Text
  pub secondary_credentials_id : Text
  pub cluster_dns_name : Text
  pub cluster_endpoint : Text
  pub certificate_pem_base64 : Text

pub record S3RepoSpec : Type 0 where
  pub name : Text
  pub description : Text
  pub credentials_id : Text
  pub compatible : Bool
  pub service_point : Text
  pub region_id : Text
  pub bucket : Text
  pub folder : Text
  pub immutable_days : ℤ
  pub mount_server_id : Text
  pub overwrite_owner : Bool

pub record HardenedSpec : Type 0 where
  pub name : Text
  pub host_id : Text
  pub path : Text
  pub xfs_fast_clone : Bool
  pub immutable_days : ℤ
  pub mount_server_id : Text

pub data Call : Type 0 where
  authenticate : Server → Call
  logout : Call
  -- `select` on a timer and the end of the context, by the timer's seconds: an error is the end.
  pause : ℕ → Call
  dial : (ip port : Text) → Call
  read_file : Text → Call
  -- The session's id, the seconds between two polls and the nanoseconds of the timeout.
  wait_session : Text → ℕ → ℤ → Call
  find_managed_server_by_name find_repository_by_name find_proxy_by_host : Text → Call
  add_linux_host : (ip description code fingerprint : Text) → Call
  update_host_components : List Text → Call
  add_hardened_repository : HardenedSpec → Call
  add_vmware_proxy : Text → ℕ → Call
  redirect_config_backup list_backups delete_backup delete_repository : Text → Call
  get_license : Call
  install_license : Text → Call
  create_credentials : (username password description : Text) → Call
  connection_certificate : (ip credentials_id : Text) → Call
  create_ha_cluster : HaSpec → Call
  set_node_exporter : (enabled tls : Bool) → (username password : Text) → Call
  set_syslog : Text → ℤ → Text → Call
  create_cloud_credentials : (access_key secret_key description : Text) → Call
  new_s3_compatible_folder : (credentials_id service_point region bucket folder : Text) → Call
  add_s3_repository : S3RepoSpec → Call

-- The value of an answer without an error: an id, the contents or a status where there is one.
abbrev pub Response : Call → Type 0
Response (authenticate _) = Unit
Response logout = Unit
Response (pause _) = Unit
Response (dial _ _) = Unit
Response (wait_session _ _ _) = Unit
Response (redirect_config_backup _) = Unit
Response (list_backups _) = List Text
Response (delete_repository _) = Unit
Response (install_license _) = Unit
Response (set_node_exporter _ _ _ _) = Unit
Response (set_syslog _ _ _) = Unit
Response (new_s3_compatible_folder _ _ _ _ _) = Unit
Response _ = Text

pub data Answer (A : Type 0) : Type 0 where
  ok : A → Answer A
  err : Text → Answer A

pub data Program (A : Type 0) : Type 0 where
  ret : A → Program A
  fail : Text → Program A
  call : (c : Call) → (Answer (Response c) → Program A) → Program A

-- `if err != nil { return err }` after the first.
infixl 5 ◌>>=◌ ◌>>◌
unfoldable pub ◌>>=◌ : {A B : Type 0} → Program A → (A → Program B) → Program B
ret a >>= f = f a
fail e >>= f = fail e
call c k >>= f = call c (λ r. k r >>= f)

unfoldable pub ◌>>◌ : {A B : Type 0} → Program A → Program B → Program B
unfolding ◌>>=◌
m >> k = m >>= λ _. k

abbrev pub returned : {A : Type 0} → Answer A → Program A
returned (ok a) = ret a
returned (err e) = fail e

unfoldable pub ask : (c : Call) → Program (Response c)
ask c = call c returned

-- The error as a value, for the code that reads it.
unfoldable pub attempt : {A : Type 0} → Program A → Program (Answer A)
attempt (ret a) = ret (ok a)
attempt (fail e) = ret (err e)
attempt (call c k) = call c (λ r. attempt (k r))

-- `fmt.Errorf("…%w", err)`.
unfoldable pub wrap : {A : Type 0} → Text → Program A → Program A
wrap p (ret a) = ret a
wrap p (fail e) = fail (p ++ e)
wrap p (call c k) = call c (λ r. wrap p (k r))

-- `defer client.Logout(…)`, whose answer nobody reads.
unfoldable pub finally_logout : {A : Type 0} → Program A → Program A
finally_logout (ret a) = call logout (λ _. ret a)
finally_logout (fail e) = call logout (λ _. fail e)
finally_logout (call c k) = call c (λ r. finally_logout (k r))

-- A run against an oracle that answers from the calls before, newest first.
pub run :
    {A : Type 0}
    → (List Call → (c : Call) → Answer (Response c))
    → List Call
    → Program A
    → Answer A × List Call
run o w (ret a) = (ok a, w)
run o w (fail e) = (err e, w)
run o w (call c k) = run o (c ∷ w) (k (o w c))
