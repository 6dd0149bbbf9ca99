-- ===== src/Tests/GuestRuns.antt =====
-- The guest client against a scripted guest API.
use incus_spire_attestor.Prelude.{
  ℕ, suc, ◌≡◌, refl, ◌↔◌, true, false, none, some, [], ◌∷◌, ◌++◌, Bytes, codes, ◌==◌, if◌then◌else◌,
  same, take,
}
use incus_spire_attestor.Errors.{Result, ok, err, Error, json, eof, remote}
use incus_spire_attestor.Exec.{pure, lift, attempt, wrapped, ◌>>=◌}
use incus_spire_attestor.Golang.Context.{rpc}
use incus_spire_attestor.Golang.Text.{split, path_escape, is_path_byte}
use incus_spire_attestor.Golang.Json.{Json, object, member, end, string}
use incus_spire_attestor.Attest.Types.{Claims}
use incus_spire_attestor.Attest.Nonce.{new_config_key, is_lower_hex}
use incus_spire_attestor.Agent.Poll.{judge, again}
use incus_spire_attestor.Guest.Failures.{is_context_error, transport_error}
use incus_spire_attestor.Guest.Metadata.{Decoder, parse_metadata, first_value, parse_metadata_lem}
use incus_spire_attestor.Guest.Ports.{Ports, Run, send, read_body, read_file, ask}
use incus_spire_attestor.Guest.Client.{config_prefix, config_path, config_of, get, read_config}
use incus_spire_attestor.Guest.Client.Answers.{IsResponse, IsConfigAnswer, read_config_iff}
use incus_spire_attestor.Guest.Client.Polling.{IsRepeated, again_iff, config_path_lem}
use incus_spire_attestor.Tests.Samples.{uuid0}
use incus_spire_attestor.Tests.Postfix.{postfix}

abbrev key0 : Bytes
key0 = codes "user.spire.attestor.nonce.000102030405060708090a0b0c0d0eff"

abbrev metadata0 : Bytes
metadata0 = codes "#cloud-config\ninstance-id: i-1\nlocal-hostname: web\n instance-id: i-2\n"

abbrev info_json : Json
info_json = object (
    member (codes "location") (string (codes "host1"))
      (member (codes "instance_type") (string (codes "virtual-machine")) end))

abbrev next0 : Bytes → Result (Json × Bytes)
next0 [] = err (json eof)
next0 (c ∷ s) = elim (postfix.parse (c ∷ s)) [ ok v ↦ ok (v, []) | err e ↦ err e ]

abbrev decoder0 : Decoder
decoder0 = record { next = next0 }

abbrev body_text : ℕ → Bytes
body_text n =
    if n == 1
    then postfix.print info_json
    else if n == 2
    then metadata0
    else codes "AAECAwQFBgcICQoLDA0O_w"

abbrev ports0 : Ports ℕ
ports0 = record {
  request_error = λ url. none;
  send = λ ctx url w. (
    ok (record {
      status = 200;
      body =
          if same url (codes "http://incus/1.0")
          then 1
          else if same url (codes "http://incus/1.0/meta-data")
          then 2
          else 3;
    }),
    suc w,
  );
  read_body = λ body limit w. (ok (take limit (body_text body)), w);
  read_file = λ path w. (ok (uuid0 ++ codes "\n"), w);
}

abbrev start : Run ℕ
start = record { world = 0; trace = [] }

abbrev claimed : Claims
claimed = record {
  project = codes "p";
  name = codes "web";
  uuid = uuid0;
  type = codes "virtual-machine";
  location = codes "host1";
  cloud_init_id = codes "i-1";
}

config_value : (read_config ports0 rpc key0 start).0 ≡ ok (some (codes "AAECAwQFBgcICQoLDA0O_w"))
unfolding read_config get config_of config_path path_escape is_path_byte same pure lift attempt
    wrapped ◌>>=◌ send read_body ask
config_value = refl

config_example :
    (body : Bytes) × (status : ℕ) × IsResponse ports0 rpc (config_path key0) start body status
    × IsConfigAnswer ports0 (some (codes "AAECAwQFBgcICQoLDA0O_w")) body status
config_example =
    (read_config_iff ports0 rpc key0 start (some (codes "AAECAwQFBgcICQoLDA0O_w"))).0 config_value

metadata_example : parse_metadata metadata0 ≡ record {
  instance_id = first_value (codes "instance-id") [] (split b'\n' metadata0);
  hostname = first_value (codes "local-hostname") [] (split b'\n' metadata0);
}
metadata_example = parse_metadata_lem metadata0

abbrev refused_connection : Error
refused_connection =
    remote (record { timeout = some false; temporary = some false; status = none; net_op = true })

again_example :
    ((judge (config_of (ok ([], 503))) ≡ again) ↔ IsRepeated 503)
    × ((judge (config_of (err (transport_error refused_connection))) ≡ again)
        ↔ (is_context_error refused_connection ≡ false))
again_example = again_iff [] 503 refused_connection

key_accepted : new_config_key key0 ≡ ok key0
unfolding new_config_key is_lower_hex same
key_accepted = refl

path_example : config_path key0 ≡ config_prefix ++ key0
path_example = config_path_lem key0 key0 key_accepted
