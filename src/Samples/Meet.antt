-- ===== src/Samples/Meet.antt =====
-- samples/client_prj/main.cc: what MyConnectClient prints, alone and with the sample server.
use libevent_cpp.Prelude.{ℕ, ◌≡◌, refl, ap, ◌∙◌, List, [], ◌∷◌, ◌++◌}
use libevent_cpp.Prelude.Outcome.{Outcome, ok, fault, out_of_fuel}
use libevent_cpp.Env.{Env}
use libevent_cpp.Con.{Con}
use libevent_cpp.Con.Receive.{pack}
use libevent_cpp.Con.Serving.{keeps, Contract}
use libevent_cpp.Con.Sending.Reliable.{Reliable}
use libevent_cpp.ConMgr.Owned
use libevent_cpp.Samples.{c_string}
use libevent_cpp.Samples.Client.{client_other, client_on_recv, client}
use libevent_cpp.Samples.Echo.{AllTexts, AllTexts-left, AllTexts-last}

-- What "%s" shows of a message.
abbrev pub shown : Outcome (List ℕ) → List ℕ
shown out_of_fuel = []
shown (fault why) = []
shown (ok s) = s

abbrev pub say_all {ℓ} : {A : Type ℓ} → (List ℕ → A → A) → A → List (List ℕ) → A
say_all say u [] = u
say_all say u (m ∷ ms) = say_all say (say (shown (c_string m)) u) ms

say_all-append {ℓ} :
    {A : Type ℓ} (say : List ℕ → A → A) (u : A) (ms ns : List (List ℕ))
    → say_all say u (ms ++ ns) ≡ say_all say (say_all say u ms) ns
say_all-append say u [] ns = refl
say_all-append say u (m ∷ ms) ns = say_all-append say (say (shown (c_string m)) u) ms ns

-- What Str2MsgPack makes of "1 msg".
abbrev pub first : List ℕ
first = 49 ∷ 32 ∷ 109 ∷ 115 ∷ 103 ∷ 0 ∷ []

module _ {E : Env} (say : List ℕ → E.User → E.User) (bev : ℕ) where
  client_on_recv_run :
      (m s : List ℕ) (c : Con E)
      → c_string m ≡ ok s
      → (client say).on_recv (pack m) c ≡ ok (record c { user = say s c.user })
  unfolding client client_other client_on_recv
  client_on_recv_run m s c e = rw e refl

  -- From the user's state `u` on, each message is printed.
  printing : E.User → Contract {E = E} (client say) bev
  printing u = record {
    After = λ ms c b. c.user ≡ say_all say u ms;
    Closed = λ ms c. ⊥;
    Can = AllTexts;
    Can-prefix = AllTexts-left;
    After-IsStable = λ ms c b n b' freed h same. h;
    on_recv_lem = λ ms m c b h live is_open pay can.
        let (s, text) = AllTexts-last ms m can in
        keeps (record c { user = say s c.user }) b (client_on_recv_run m s c text) live refl is_open
          (refl, refl) (ap (say s) h ∙ rw (say_all-append say u ms (m ∷ []), text) refl);
  }
