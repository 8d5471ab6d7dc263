-- ===== src/Tests/Codecs.antt =====
-- One concrete binary form for the records that the code encodes.
use cil_core.Base.{ℕ, zero, suc, ◌≡◌, refl, Option, none, some, List, [], ◌∷◌, length, ok}
use cil_core.Utxo.{Coins, UtxoProto}
use cil_core.Contract.{ContractProto}
use cil_core.Receipt.{TxReceiptProto}
use cil_core.Patch.{Codec}
use cil_core.Mempool.Types.{TxCodec}

pub record Format (A : Type 0) : Type 0 where
  pub put : A → List ℕ → List ℕ
  pub take : List ℕ → A × List ℕ
  pub take-put : (a : A) (r : List ℕ) → take (put a r) ≡ (a, r)

abbrev take_number : List ℕ → ℕ × List ℕ
take_number [] = (0, [])
take_number (n ∷ r) = (n, r)

abbrev pub number : Format ℕ
number = record { put = λ n r. n ∷ r; take = take_number; take-put = λ n r. refl }

module _ {A : Type 0} (f : Format A) where
  abbrev put_all : List A → List ℕ → List ℕ
  put_all [] r = r
  put_all (x ∷ xs) r = f.put x (put_all xs r)

  abbrev take_all : ℕ → List ℕ → List A × List ℕ
  take_all zero r = ([], r)
  take_all (suc n) r = let (x, r1) = f.take r in let (xs, r2) = take_all n r1 in (x ∷ xs, r2)

  pub take_all-put_all : (xs : List A) (r : List ℕ) → take_all (length xs) (put_all xs r) ≡ (xs, r)
  take_all-put_all [] r = refl
  take_all-put_all (x ∷ xs) r = rw (f.take-put x (put_all xs r), take_all-put_all xs r) refl

  abbrev take_list : List ℕ → List A × List ℕ
  take_list [] = ([], [])
  take_list (n ∷ r) = take_all n r

  abbrev pub listed : Format (List A)
  listed = record {
    put = λ xs r. length xs ∷ put_all xs r;
    take = take_list;
    take-put = take_all-put_all;
  }

  abbrev put_option : Option A → List ℕ → List ℕ
  put_option none r = 0 ∷ r
  put_option (some a) r = 1 ∷ f.put a r

  abbrev take_option : List ℕ → Option A × List ℕ
  take_option [] = (none, [])
  take_option (zero ∷ r) = (none, r)
  take_option (suc n ∷ r) = let (a, r') = f.take r in (some a, r')

  pub take_option-put : (o : Option A) (r : List ℕ) → take_option (put_option o r) ≡ (o, r)
  take_option-put none r = refl
  take_option-put (some a) r = rw (f.take-put a r) refl

  abbrev pub optional : Format (Option A)
  optional = record { put = put_option; take = take_option; take-put = take_option-put }

abbrev coins : Format Coins
coins = record {
  put = λ c r. c.amount ∷ c.receiver ∷ r;
  take = λ bytes.
      let (a, r1) = take_number bytes in
      let (b, r2) = take_number r1 in (record { amount = a; receiver = b }, r2);
  take-put = λ c r. refl;
}

abbrev utxo_proto : UtxoProto
utxo_proto = record {
  encode = λ d. (listed number).put d.indexes ((listed coins).put d.outputs []);
  decode = λ bytes.
      let (is, r1) = (listed number).take bytes in
      let (cs, r2) = (listed coins).take r1 in record { indexes = is; outputs = cs };
  decode-encode = λ d.
      rw
        (
          take_all-put_all number d.indexes ((listed coins).put d.outputs []),
          take_all-put_all coins d.outputs [],
        )
        refl;
}

abbrev pub contract_proto : ContractProto
contract_proto = record {
  encode_fields = λ f. (optional number).put f.concilium_id (
      f.version
      ∷ f.balance
      ∷ (optional number).put f.contract_code ((optional (listed number)).put f.contract_data []));
  decode_fields = λ bytes.
      let (id, r1) = (optional number).take bytes in
      let (version, r2) = take_number r1 in
      let (balance, r3) = take_number r2 in
      let (code, r4) = (optional number).take r3 in
      let (stored, r5) = (optional (listed number)).take r4 in
      record {
        concilium_id = id;
        version = version;
        balance = balance;
        contract_code = code;
        contract_data = stored;
      };
  decode-encode = λ f.
      rw
        (
          take_option-put number f.concilium_id (
              f.version
              ∷ f.balance
              ∷ (optional number).put f.contract_code
                  ((optional (listed number)).put f.contract_data [])),
          take_option-put number f.contract_code
              ((optional (listed number)).put f.contract_data []),
          take_option-put (listed number) f.contract_data [],
        )
        refl;
  json_serialize = λ d. d ∷ 1 ∷ [];
  json_deserialize = λ bytes. (take_number bytes).0;
  json_round = λ d. refl;
  v8_serialize = λ d. d ∷ 2 ∷ [];
  v8_deserialize = λ bytes. (take_number bytes).0;
  v8_round = λ d. refl;
  stringify_code = λ c. c;
  parse_code = λ c. c;
  empty_object = 0;
}

abbrev pub receipt_proto : TxReceiptProto
receipt_proto = record {
  encode = λ t. (optional number).put t.contract_address (
      t.coins_used
      ∷ t.status
      ∷ (optional number).put t.message
          ((listed number).put t.internal_txns ((listed coins).put t.coins [])));
  decode = λ bytes.
      let (address, r1) = (optional number).take bytes in
      let (used, r2) = take_number r1 in
      let (status, r3) = take_number r2 in
      let (message, r4) = (optional number).take r3 in
      let (internal, r5) = (listed number).take r4 in
      let (cs, r6) = (listed coins).take r5 in
      record {
        contract_address = address;
        coins_used = used;
        status = status;
        message = message;
        internal_txns = internal;
        coins = cs;
      };
  decode-encode = λ t.
      rw
        (
          take_option-put number t.contract_address (
              t.coins_used
              ∷ t.status
              ∷ (optional number).put t.message
                  ((listed number).put t.internal_txns ((listed coins).put t.coins []))),
          take_option-put number t.message
              ((listed number).put t.internal_txns ((listed coins).put t.coins [])),
          take_all-put_all number t.internal_txns ((listed coins).put t.coins []),
          take_all-put_all coins t.coins [],
        )
        refl;
}

abbrev pub codec : Codec
codec = record { utxo = utxo_proto; contract = contract_proto; receipt = receipt_proto }

abbrev pub tx_codec : TxCodec
tx_codec = record {
  encode = λ t. t.hash ∷ t.concilium_id ∷ [];
  decode = λ bytes.
      let (h, r1) = take_number bytes in
      let (id, r2) = take_number r1 in ok (record { hash = h; concilium_id = id });
  decode-encode = λ t. refl;
}
