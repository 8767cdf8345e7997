-- ===== src/Veeam/Operations.antt =====
-- The operations of the client on hardened and object-storage repositories, proxies, licenses, the
-- HA cluster and the general options (internal/veeam/veeam.go).
use autodeploy_web.Base.{
  Bool, true, false, not, List, [], ◌∷◌, ◌++◌, Text, text, ℤ, pos, is_empty, ltb_ℤ, if◌then◌else◌,
  ◌||◌,
}
use autodeploy_web.Base.Trim.{trim_space}
use autodeploy_web.Wiring.Settings.{has_part}
use autodeploy_web.Veeam.{
  Json, boolean, number, string, object, Config, no_body, ok, Outside, Client, Result, and_then,
  prefixed, do_request,
}
use autodeploy_web.Veeam.Calls.{InstalledLicense, Library, fields, entries, ignored, id_from}

pub record HaSpec : Type 0 where
  pub primary_node_ip : Text
  pub secondary_node_ip : Text
  pub secondary_credentials_id : Text
  pub cluster_dns_name : Text
  pub certificate_pem_base64 : Text
  pub cluster_endpoint : Text
  pub cross_subnet : Bool
  pub primary_external_endpoint : Text
  pub secondary_external_endpoint : Text

pub record S3RepoSpec : Type 0 where
  pub name : Text
  pub description : Text
  pub credentials_id : Text
  pub compatible : Bool
  pub service_point : Text
  pub region_id : Text
  pub bucket : Text
  pub folder : Text
  pub immutable_days : ℤ
  pub mount_server_id : Text
  pub mount_write_cache : Text
  pub overwrite_owner : Bool

-- A member that is there under a condition.
unfoldable pub optional : Bool → List (Text × Json) → List (Text × Json)
optional b fs = if b then fs else []

abbrev pub members : List (Text × Json) → Json
members fs = object (fields fs)

-- The block `mountServer`.
unfoldable pub mount_server : Text → Bool → Text → List (Text × Json)
mount_server id nfs cache =
    (
      text "mountServer",
      members (
          (text "mountServerSettingsType", string (text "Linux"))
          ∷ (
            text "linux",
            members (
                (text "mountServerId", string id)
                ∷ (text "vPowerNFSEnabled", boolean nfs)
                ∷ (text "writeCacheFolder", string cache)
                ∷ []),
          )
          ∷ []),
    )
    ∷ []

unfoldable pub hardened_body : Text → Text → Text → Text → Bool → ℤ → Text → List (Text × Json)
unfolding optional mount_server
hardened_body name host path description fast days mount =
    ((text "type", string (text "LinuxHardened"))
      ∷ (text "name", string name)
      ∷ (text "description", string description)
      ∷ (text "hostId", string host)
      ∷ (
        text "repository",
        members (
            (text "path", string path)
            ∷ (text "useFastCloningOnXFSVolumes", boolean fast)
            ∷ (text "makeRecentBackupsImmutableDays", number days)
            ∷ []),
      )
      ∷ [])
    ++ optional (not (is_empty mount))
        (mount_server mount true (text "/var/lib/veeamdata/veeam/IRCache/"))

-- `normalizeEndpoint`.
unfoldable pub normalize_endpoint : Text → Text
normalize_endpoint s =
    let t = trim_space s in
    if is_empty t || has_part (text "://") t then t else text "https://" ++ t

unfoldable pub immutability : ℤ → List (Text × Json)
unfolding optional
immutability days = optional (ltb_ℤ (pos 0) days) (
    (
      text "immutability",
      members (
          (text "isEnabled", boolean true)
          ∷ (text "daysCount", number days)
          ∷ (text "immutabilityMode", string (text "RepositorySettings"))
          ∷ []),
    )
    ∷ [])

unfoldable pub connection_settings : Text × Json
connection_settings =
    (text "connectionSettings", members ((text "connectionType", string (text "Direct")) ∷ []))

-- The `body` of `AddS3Repository`.
unfoldable pub s3_body : S3RepoSpec → List (Text × Json)
unfolding immutability mount_server normalize_endpoint connection_settings optional
s3_body spec =
    let cache = if is_empty spec.mount_write_cache then text "/tmp" else spec.mount_write_cache in
    let mount =
      optional (not (is_empty spec.mount_server_id))
        (mount_server spec.mount_server_id false cache) in
    let names =
      (text "name", string spec.name) ∷ (text "description", string spec.description) ∷ [] in
    let bucket =
      ((text "bucketName", string spec.bucket) ∷ (text "folderName", string spec.folder) ∷ [])
      ++ immutability spec.immutable_days in
    if spec.compatible
    then ((text "type", string (text "S3Compatible")) ∷ names)
      ++ ((
        text "account",
        members (
            (text "servicePoint", string (normalize_endpoint spec.service_point))
            ∷ (text "regionId", string spec.region_id)
            ∷ (text "credentialsId", string spec.credentials_id)
            ∷ connection_settings
            ∷ []),
      )
          ∷ (text "bucket", members bucket)
          ∷ mount)
    else ((text "type", string (text "AmazonS3")) ∷ names)
      ++ ((
        text "account",
        members (
            (text "credentialsId", string spec.credentials_id)
            ∷ (text "regionType", string (text "Global"))
            ∷ connection_settings
            ∷ []),
      )
          ∷ (text "bucket", members ((text "regionId", string spec.region_id) ∷ bucket))
          ∷ mount)

unfoldable pub ha_body : HaSpec → List (Text × Json)
unfolding optional
ha_body spec =
    ((text "primaryNodeIpAddress", string spec.primary_node_ip)
      ∷ (text "secondaryNodeIpAddress", string spec.secondary_node_ip)
      ∷ (text "secondaryNodeCredentialsId", string spec.secondary_credentials_id)
      ∷ (text "clusterDnsName", string spec.cluster_dns_name)
      ∷ (
        text "certificate",
        members (
            (text "certificate", string spec.certificate_pem_base64)
            ∷ (text "formatType", string (text "Pem"))
            ∷ []),
      )
      ∷ [])
    ++ optional (not (is_empty spec.cluster_endpoint))
        ((text "clusterEndpoint", string spec.cluster_endpoint) ∷ [])
    ++ optional spec.cross_subnet (
        (text "isCrossSubnetMode", boolean true)
        ∷ (text "primaryNodeExternalEndpoint", string spec.primary_external_endpoint)
        ∷ (text "secondaryNodeExternalEndpoint", string spec.secondary_external_endpoint)
        ∷ [])

-- The block `auth` of a user.
unfoldable pub basic_auth : Text → Text → List (Text × Json)
basic_auth username password =
    (text "type", string (text "UsernamePassword"))
    ∷ (text "username", string username)
    ∷ (text "password", string password)
    ∷ []

module _ (cfg : Config) (world : Outside) (lib : Library) where
  -- `AddHardenedRepository`.
  unfoldable pub add_hardened_repository :
      Text → Text → Text → Text → Bool → ℤ → Text → Client → Result Text
  unfolding hardened_body
  add_hardened_repository name host path description fast days mount =
      id_from cfg world lib (text "POST") (text "/api/v1/backupInfrastructure/repositories")
        (entries (hardened_body name host path description fast days mount))

  -- `AddVmwareProxy`.
  unfoldable pub add_vmware_proxy : Text → ℤ → Client → Result Text
  add_vmware_proxy host_id max_tasks =
      let tasks = if ltb_ℤ (pos 0) max_tasks then max_tasks else pos 4 in
      id_from cfg world lib (text "POST") (text "/api/v1/backupInfrastructure/proxies") (
        entries (
          (text "type", string (text "ViProxy"))
          ∷ (text "description", string [])
          ∷ (
            text "server",
            members ((text "hostId", string host_id) ∷ (text "maxTaskCount", number tasks) ∷ []),
          )
          ∷ []))

  -- `CreateHACluster`.
  unfoldable pub create_ha_cluster : HaSpec → Client → Result Text
  unfolding ha_body
  create_ha_cluster spec =
      id_from cfg world lib (text "POST") (text "/api/v1/highAvailabilityCluster")
        (entries (ha_body spec))

  -- `CreateCloudCredentials`.
  unfoldable pub create_cloud_credentials : Text → Text → Text → Client → Result Text
  create_cloud_credentials access secret description c =
      prefixed (text "veeam: CreateCloudCredentials: ") (
        id_from cfg world lib (text "POST") (text "/api/v1/cloudCredentials")
          (entries (
            (text "type", string (text "Amazon"))
            ∷ (text "accessKey", string access)
            ∷ (text "secretKey", string secret)
            ∷ (text "description", string description)
            ∷ []))
          c)

  -- `AddS3Repository`.
  unfoldable pub add_s3_repository : S3RepoSpec → Client → Result Text
  unfolding s3_body
  add_s3_repository spec c =
      let path = text "/api/v1/backupInfrastructure/repositories" in
      prefixed (text "veeam: AddS3Repository: ") (
        id_from cfg world lib (text "POST")
          (if spec.overwrite_owner then path ++ text "?overwriteOwner=true" else path)
          (entries (s3_body spec)) c)

  -- `NewS3CompatibleFolder`.
  unfoldable pub new_s3_compatible_folder :
      Text → Text → Text → Text → Text → Client → Result (Unit {0})
  unfolding normalize_endpoint
  new_s3_compatible_folder credentials point region bucket folder c =
      prefixed (text "veeam: NewS3CompatibleFolder: ") (
        do_request cfg world (text "POST") (text "/api/v1/cloudBrowser/newFolder")
          (entries (
            (text "credentialsId", string credentials)
            ∷ (text "serviceType", string (text "S3Compatible"))
            ∷ (text "newFolderName", string folder)
            ∷ (text "connectionPoint", string (normalize_endpoint point))
            ∷ (text "regionId", string region)
            ∷ (text "bucketName", string bucket)
            ∷ []))
          ignored c)

  -- `SetSyslog`.
  unfoldable pub set_syslog : Text → ℤ → Text → Client → Result (Unit {0})
  set_syslog server port protocol c =
      let transport = if is_empty protocol then text "Udp" else protocol in
      let number_of = if ltb_ℤ (pos 0) port then port else pos 514 in
      prefixed (text "veeam: SetSyslog: ") (
        do_request cfg world (text "PUT") (text "/api/v1/generalOptions/eventForwarding")
          (entries (
            (
              text "syslogServer",
              members (
                  (text "serverName", string server)
                  ∷ (text "port", number number_of)
                  ∷ (text "transportProtocol", string transport)
                  ∷ []),
            )
            ∷ []))
          ignored c)

  -- `SetNodeExporter`.
  unfoldable pub set_node_exporter : Bool → Bool → Text → Text → Client → Result (Unit {0})
  unfolding basic_auth
  set_node_exporter enabled tls username password c =
      let auth =
        if is_empty username
        then (text "type", string (text "None")) ∷ []
        else basic_auth username password in
      let path = text "/api/v1/generalOptions/nodeExporterSettings" in
      and_then
        (prefixed (text "veeam: SetNodeExporter: ") (
          do_request cfg world (text "PUT") path
            (entries (
              (text "metricsSharingEnabled", boolean enabled)
              ∷ (text "tlsEnabled", boolean tls)
              ∷ (text "auth", members auth)
              ∷ []))
            ignored c))
        (λ _ c'. elim (is_empty username) [
          | true ↦ (ok tt, c')
          | false ↦ prefixed (text "veeam: SetNodeExporter setBasicAuth: ") (
              do_request cfg world (text "POST") (path ++ text "/setBasicAuth")
                (entries (basic_auth username password)) ignored c')
        ])

  -- `GetLicense`.
  unfoldable pub get_license : Client → Result InstalledLicense
  get_license =
      do_request cfg world (text "GET") (text "/api/v1/license") no_body lib.decode_license

  -- `Logout`: the error is dropped.
  unfoldable pub logout : Client → Client
  logout c = (do_request cfg world (text "POST") (text "/api/oauth2/logout") no_body ignored c).1
