-- ===== src/Helper/Tests.antt =====
-- A connect request over the wire, and the round trip at it.
use nordmac.Base.{
  true, none, some, [], ◌∷◌, pos, ok, length, replicate, ◌≡◌, refl, reject_if, context, ◌>>◌,
  ℕ_discrete, Text-discrete, ℤ-discrete, contains,
}
use nordmac.Base.Actions.{pure, raise, lift, map_error, ◌>>=◌}
use nordmac.Patterns.{every, some_byte, valid_session_id, is_fingerprint, is_interface, has_control}
use nordmac.Netip.{Addr-discrete, Prefix-discrete}
use nordmac.Netip.Address.{
  unmap, is_multicast, is_private, is_global_unicast, is_multicast_plain, is_private_plain,
  is_global_unicast_plain,
}
use nordmac.Netip.Prefixes.{mask_bits}
use nordmac.Tunnel.Plan.{
  validate_plan, bad_scoped, hits_physical, check_scoped, check_policy, check_dns, bad_endpoint,
  bad_gateway, bad_tunnel_address, validate_route, validate_handle,
}
use nordmac.Tunnel.Examples.{session, scoped_plan}
use nordmac.Helper.Protocol.{
  schema_version, secret_channel_version, connect_operation, Request, validate_request,
  check_connect, check_operation, DeviceSecrets, validate_secrets, all_zero,
}
use nordmac.Helper.Frames.{
  Codec, Writer, put_uint32, write, write_secrets, write_frame, write_tail, encode_frame,
  decode_frame,
}
use nordmac.Helper.Reads.{end_of_file}
use nordmac.Helper.Roundtrip.{IsWriter, IsFaithful, decode_frame-encode_frame}

abbrev connect_request : Request
connect_request = record {
  schema = schema_version;
  request_id = session;
  operation = connect_operation;
  session_id = session;
  owner_uid = pos 501;
  secret_channel = secret_channel_version;
  plan = some scoped_plan;
}

abbrev keys : DeviceSecrets
keys = record { client_private_key = replicate 32 7; peer_public_key = replicate 32 9 }

-- A codec of this one request.
abbrev one_codec : Codec Request
one_codec = record {
  marshal = λ r. some (b'{' ∷ b'}' ∷ []);
  unmarshal = λ d. some (connect_request, true);
}

abbrev all_writer : Writer
all_writer out chunk = (length chunk, none)

all_writer_fine : IsWriter all_writer
all_writer_fine = record { whole = λ out chunk h. refl }

one_codec_fine : IsFaithful one_codec connect_request
one_codec_fine = record { returns = λ d h. refl; not_empty = λ d h z. cc }

encoded : (encode_frame all_writer one_codec connect_request (some keys) []).0 ≡ ok tt
unfolding encode_frame write write_secrets write_frame write_tail put_uint32 validate_request
    check_connect check_operation validate_secrets all_zero pure raise lift map_error ◌>>=◌
    reject_if context ◌>>◌ validate_plan check_policy check_scoped bad_scoped hits_physical
    check_dns bad_endpoint bad_gateway bad_tunnel_address validate_route validate_handle every
    some_byte valid_session_id is_fingerprint is_interface has_control unmap is_multicast is_private
    is_global_unicast is_multicast_plain is_private_plain is_global_unicast_plain mask_bits
    ℕ_discrete Text-discrete ℤ-discrete Addr-discrete Prefix-discrete contains
encoded = refl

decode_frame-encode_frame_example :
    decode_frame one_codec (record {
      bytes = (encode_frame all_writer one_codec connect_request (some keys) []).1;
      at_eof = true;
    })
    ≡ (ok (connect_request, keys), end_of_file)
decode_frame-encode_frame_example =
    decode_frame-encode_frame all_writer all_writer_fine one_codec connect_request (some keys)
      one_codec_fine (refl, refl) encoded
