-- ===== src/Examples/Exchanges.antt =====
-- Challenges on a server that is a function, and one token exchange.
use event_tracking.Prelude.{
  String, ◌≡◌, refl, arith, true, false, Option, none, some, [], ◌∷◌, inl, ◌==◌, if◌then◌else◌,
}
use event_tracking.Prelude.Int.{pos}
use event_tracking.Contract.{TokenRequest}
use event_tracking.Attest.{Cells, IsCells, challenge_key, issue, consume}
use event_tracking.Attest.Spent.{start, consumed, consume_once}
use event_tracking.Handler.Body.{eof}
use event_tracking.Handler.Batch.{Request}
use event_tracking.Handler.Token.{TokenDeps, TokenCodecs, serve_token}
use event_tracking.Handler.Token.Grants.{Exchanges, serve_token_cases}
use event_tracking.Examples.Samples.{noon}

abbrev pub cells : Cells
cells = record {
  Server = String → Option String;
  random_text = λ s. some "n1";
  set = λ k v s. (true, λ j. if k == j then some v else s j);
  get_del = λ k s. (some (s k), λ j. if k == j then none else s j);
}

cells-IsCells : IsCells cells
cells-IsCells = record {
  held = λ s k. s k;
  set_held = λ k j v s. inl refl;
  get_del_held = λ k j s. inl refl;
  get_del_answer = λ k o s h. ground arith;
}

-- a challenge was issued
abbrev issued_once : String → Option String
issued_once = (issue cells "c1" "android" (λ k. none)).1

taken : (consume cells "c1" "android" "n1" issued_once).0 ≡ true
unfolding consume issue challenge_key
taken = refl

consume_once_example :
    (consume cells "c1" "android" "n1"
      (consume cells "c2" "ios" "n2" (consume cells "c1" "android" "n1" issued_once).1).1).0
    ≡ false
consume_once_example =
    consume_once cells cells-IsCells "c1" "android" "n1" issued_once
      (consume cells "c2" "ios" "n2" (consume cells "c1" "android" "n1" issued_once).1).1 taken
      (consumed start "c2" "ios" "n2" refl)

abbrev pub exchange : TokenRequest
exchange = record {
  client_id = "c1";
  platform = "android";
  attestation = "blob";
  challenge = "n1";
  device_hint = "h";
}

abbrev token_deps : TokenDeps (Unit {0})
token_deps = record {
  clock = λ w. noon;
  mint_token = λ c t. some ("tok", pos 2700);
  attest = λ platform blob challenge w. (some "subject", w);
  issue_challenge = λ client_id platform w. (some "n1", w);
  consume_challenge = λ client_id platform challenge w. (true, w);
  resolve_tenant = λ client_id w. (some "t1", w);
  issue_install = λ tenant_id platform subject device tier w. (some "i1", w);
  allow_client = some (λ key limit window w. (some true, w));
}

abbrev pub token_codecs : TokenCodecs
token_codecs = record {
  gunzip = λ s. some s;
  unmarshal = λ b. some exchange;
  marshal = λ r. some "token";
  encode_challenge = λ c. c;
  digest = λ s. "d";
}

abbrev pub post : Request
post = record {
  authorization = "";
  content_encoding = "";
  body = record { content = 123 ∷ 125 ∷ []; ending = eof };
}

serve_token_cases_example :
    Exchanges token_codecs token_deps post tt (serve_token token_codecs token_deps post tt).0
serve_token_cases_example = serve_token_cases token_codecs token_deps post tt
