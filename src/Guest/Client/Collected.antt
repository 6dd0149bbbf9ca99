-- ===== src/Guest/Client/Collected.antt =====
-- What claims that the guest client returns were made of.
use incus_spire_attestor.Prelude.{◌≡◌, Option, some, Bytes, codes}
use incus_spire_attestor.Errors.{ok}
use incus_spire_attestor.Golang.Context.{Context}
use incus_spire_attestor.Golang.Text.{trim_space}
use incus_spire_attestor.Attest.Types.{Claims}
use incus_spire_attestor.Attest.Claims.{validate_claims}
use incus_spire_attestor.Guest.Metadata.{Metadata, Info, Decoder, decode_info, parse_metadata}
use incus_spire_attestor.Guest.Ports.{Ports, Run, read_file}
use incus_spire_attestor.Guest.Client.{Client, collected}
use incus_spire_attestor.Guest.Client.Answers.{IsResponse}

module _ {W : Type 0} (ports : Ports W) where
  module _ (parse_uuid : Bytes → Option Bytes) (client : Client) (decoder : Decoder)
      (ctx : Context) where
    -- The three sources of the claims, and what was made of them.
    pub record IsCollected (s : Run W) (c : Claims) : Type 0 where
      pub info_body : Bytes
      pub info : Info
      pub info_response : IsResponse ports ctx (codes "/1.0") s info_body 200
      pub info_decoded : decode_info decoder info_body ≡ ok info
      pub metadata_body : Bytes
      pub behind_info : Run W
      pub metadata_response :
          IsResponse ports ctx (codes "/1.0/meta-data") behind_info metadata_body 200
      pub product : Bytes
      pub behind_metadata : Run W
      pub product_read : (read_file ports client.dmi_path behind_metadata).0 ≡ ok product
      pub uuid : parse_uuid (trim_space product) ≡ some c.uuid
      pub content : c ≡ collected ports parse_uuid client info (parse_metadata metadata_body) c.uuid
      pub accepted : validate_claims parse_uuid c ≡ ok tt
