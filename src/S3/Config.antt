-- ===== src/S3/Config.antt =====
-- Config, NewClient and Bucket of s3/s3.go.
use packages_go.Prelude.{
  Bool, true, not, ◌||◌, ◌&&◌, Option, none, some, Bytes, bytes_eq, is_empty, if◌then◌else◌,
}
use packages_go.S3.Wire.{text, plain, Result, ok, err}
use packages_go.S3.Key.{valid_bucket}

pub record Config : Type 0 where
  pub endpoint : Bytes
  pub region : Bytes
  pub bucket : Bytes
  pub path_style : Bool
  pub access_key_id : Bytes
  pub secret_access_key : Bytes
  pub session_token : Bytes

-- The parts of a url.URL that the check reads.
pub record Url : Type 0 where
  pub has_user : Bool
  pub raw_query : Bytes
  pub fragment : Bytes
  pub scheme : Bytes
  pub host : Bytes
  pub hostname : Bytes
  pub path : Bytes

-- parse: url.Parse; loopback_ip: net.ParseIP of a host that is an IP with IsLoopback.
module _ (parse : Bytes → Option Url) (loopback_ip : Bytes → Bool) where
  unfoldable pub loopback_host : Bytes → Bool
  loopback_host host = bytes_eq host (text "localhost") || loopback_ip host

  unfoldable pub bad_endpoint : Url → Bool
  bad_endpoint u =
      u.has_user
      || (not (is_empty u.raw_query)
          || (not (is_empty u.fragment)
              || ((not (bytes_eq u.scheme (text "https"))
                    && not (bytes_eq u.scheme (text "http") && loopback_host u.hostname))
                  || (is_empty u.host
                      || (not (is_empty u.path) && not (bytes_eq u.path (text "/")))))))

  abbrev bad_url : Option Url → Bool
  bad_url none = true
  bad_url (some u) = bad_endpoint u

  -- A client holds its configuration.
  unfoldable pub new_client : Config → Result Config
  new_client c =
      if bad_url (parse c.endpoint)
      then err (
          plain (
            text
              "s3: endpoint must be an https (or loopback http) URL with no credentials, query, fragment, or path"))
      else if is_empty c.region || not (valid_bucket c.bucket)
      then err (plain (text "s3: region and a valid bucket name are required"))
      else if is_empty c.access_key_id || is_empty c.secret_access_key
      then err (plain (text "s3: access key ID and secret access key are required"))
      else ok c

abbrev pub bucket_of : Config → Bytes
bucket_of c = c.bucket
