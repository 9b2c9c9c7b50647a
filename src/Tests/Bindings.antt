-- ===== src/Tests/Bindings.antt =====
-- A claim of a sample node by its controller.
use rmvpn.Base.{true, some, [], ◌∷◌}
use rmvpn.Exec.{World}
use rmvpn.Enrollment.{Authority, ClaimRequest}
use rmvpn.Tests.Samples.{digest, toy_crypto, sample, sample_node, sample_store}

abbrev authority : Authority
authority = record {
  crypto = toy_crypto;
  parse_url = λ url. some (record { scheme = "https"; host = "control.example" });
  parse_certificate = λ pem. some (record { ed25519_key = some digest; not_after = 1_000 });
  chains_to = λ certificate ca now. true;
}

abbrev request : ClaimRequest
request = record {
  claim_token = "t";
  controller_url = "https://control.example";
  controller_public_key = digest;
  quota_public_key = digest;
  compliance_public_key = "";
  node_certificate_pem = "node";
  controller_ca_pem = "ca";
}

abbrev bound_sample : World
bound_sample = record sample {
  held = record sample_node {
    store = record sample_store { state = ("node_public_key", digest) ∷ [] };
  };
}
