-- ===== src/App/Registry.antt =====
-- The list of servers of the application (src/main.cpp): what a lookup finds after a server is created
-- or stopped.
use tcp_lib_with_command_par.Prelude.{
  none≢some, undefined, ℕ, ◌≡◌, refl, sym, ap, ◌∙◌, inl, inr, ℤ, pos, Bool, true, false, Bool-cases,
  Option, none, some, List, [], ◌∷◌, ◌++◌, Outcome, done, ◌>>=◌, arith, ◌==◌, if◌then◌else◌,
}
use tcp_lib_with_command_par.Prelude.CString.{str_eq}
use tcp_lib_with_command_par.Cli.{OpMode}
use tcp_lib_with_command_par.Server.{Controller, new_controller}
use tcp_lib_with_command_par.App.{
  Net, App, Objects, network_convert_ip_p_to_n, tcp_server_lookup, put_server,
  set_server_notif_callbacks, create_server, run_command, tcp_server_create,
}
use tcp_lib_with_command_par.App.Reading.{Args, text}

-- No server of the list has been deleted.
abbrev pub Registered : Objects → List ℕ → Type 0
Registered objects [] = Unit
Registered objects (p ∷ ps) = ((c : Controller) × (objects p ≡ some c)) × Registered objects ps

-- The server that TCP_SERVER_CREATE makes.
abbrev pub created : Net → Args → List ℕ → List ℕ → Controller
created net args name ip_addr =
    set_server_notif_callbacks
      (new_controller (network_convert_ip_p_to_n net ip_addr) args.port_no name)

-- What a lookup finds in a list with a server of a name added at its end.
abbrev pub or_last : Bool → ℕ → Option ℕ → Option ℕ
or_last same fresh none = if same then some fresh else none
or_last same fresh (some p) = some p

abbrev put : Objects → ℕ → Controller → Objects
put objects p c i = if i == p then some c else objects i

pub lookup-∷ :
    (objects : Objects) (q : ℕ) (ps : List ℕ) (name : List ℕ) (o : Option Controller)
    → objects q ≡ o
    → tcp_server_lookup objects (q ∷ ps) name ≡ elim o [
      | none ↦ undefined
      | some c ↦ if str_eq c.name name then done (some q) else tcp_server_lookup objects ps name
    ]
unfolding tcp_server_lookup
lookup-∷ objects q ps name o e = rw (e, tcp_server_lookup) refl

lookup-put :
    (objects : Objects) (ps : List ℕ) (fresh : ℕ) (c : Controller) (name : List ℕ)
    → Registered objects ps
    → objects fresh ≡ none
    → tcp_server_lookup (put objects fresh c) (ps ++ fresh ∷ []) name ≡ (do
      found ← tcp_server_lookup objects ps name
      done (or_last (str_eq c.name name) fresh found))
unfolding tcp_server_lookup
lookup-put objects [] fresh c name alive free =
    let e : (fresh == fresh) ≡ true = ground arith in
    lookup-∷ (put objects fresh c) fresh [] name (some c) (rw e refl) ∙ at_end (str_eq c.name name)
  where
    at_end : (b : Bool) → (if b then done (some fresh) else done none) ≡ done (or_last b fresh none)
    at_end true = refl
    at_end false = refl
lookup-put objects (p ∷ ps) fresh c name alive free = elim (Bool-cases (p == fresh)) [
  | inl e ↦
      absurd
        (none≢some alive.0.0 (objects p) (ap objects {y = fresh} (ground arith) ∙ free) alive.0.1)
  | inr e ↦
      lookup-∷ (put objects fresh c) p (ps ++ fresh ∷ []) name (some alive.0.0) (rw e alive.0.1)
      ∙ onward (tcp_server_lookup (put objects fresh c) (ps ++ fresh ∷ []) name)
          (tcp_server_lookup objects ps name) (str_eq alive.0.0.name name)
          (lookup-put objects ps fresh c name alive.1 free)
      ∙ ap (λ o. do found ← o; done (or_last (str_eq c.name name) fresh found))
          (sym (lookup-∷ objects p ps name (some alive.0.0) alive.0.1))
]
  where
    onward :
        (later later' : Outcome (Option ℕ)) (b : Bool)
        → later ≡ (do found ← later'; done (or_last (str_eq c.name name) fresh found))
        → (if b then done (some p) else later) ≡ (do
          found ← (if b then done (some p) else later')
          done (or_last (str_eq c.name name) fresh found))
    onward later later' true h = refl
    onward later later' false h = h

Registered-put :
    (objects : Objects) (ps : List ℕ) (fresh : ℕ) (c : Controller)
    → Registered objects ps
    → objects fresh ≡ none
    → Registered (put objects fresh c) (ps ++ fresh ∷ [])
Registered-put objects [] fresh c alive free =
    let e : (fresh == fresh) ≡ true = ground arith in ((c, rw e refl), tt)
Registered-put objects (p ∷ ps) fresh c alive free = elim (Bool-cases (p == fresh)) [
  | inl e ↦
      absurd
        (none≢some alive.0.0 (objects p) (ap objects {y = fresh} (ground arith) ∙ free) alive.0.1)
  | inr e ↦ ((alive.0.0, rw e alive.0.1), Registered-put objects ps fresh c alive.1 free)
]

-- The command has created a server at a free pointer.
pub record Creates (net : Net) (fresh : ℕ) (app : App) (args : Args) (name ip_addr : List ℕ)
    (out : Outcome (App × ℤ)) : Type 0 where
  pub after : App
  pub returns : out ≡ done (after, pos 0)
  pub object : after.objects fresh ≡ some (created net args name ip_addr)
  pub registered : Registered after.objects after.servers
  pub clients : after.clients ≡ app.clients
  pub finds :
      (other : List ℕ)
      → tcp_server_lookup after.objects after.servers other ≡ (do
        found ← tcp_server_lookup app.objects app.servers other
        done (or_last (str_eq name other) fresh found))

-- On a list of servers of which none has been deleted, the command that creates a server whose name
-- no server has returns 0 in every mode, and makes the server of its arguments; every name that led
-- to a server leads to the same one, the new name leads to the new one, and no other leads to any.
pub run_command-Creates :
    (net : Net) (fresh : ℕ) (app : App) (args : Args) (mode : OpMode) (name ip_addr : List ℕ)
    → Registered app.objects app.servers
    → app.objects fresh ≡ none
    → text args.server_name ≡ done name
    → text (some args.ip_addr) ≡ done ip_addr
    → tcp_server_lookup app.objects app.servers name ≡ done none
    → Creates net fresh app args name ip_addr
        (run_command net fresh app tcp_server_create args mode)
unfolding run_command create_server put_server set_server_notif_callbacks new_controller
run_command-Creates net fresh app args mode name ip_addr alive free named addressed unknown =
    let c : Controller = created net args name ip_addr in
    let e : (fresh == fresh) ≡ true = ground arith in
    record {
      after = record app { servers = app.servers ++ fresh ∷ []; objects = put app.objects fresh c };
      returns = rw (named, unknown, addressed) refl;
      object = rw e refl;
      registered = Registered-put app.objects app.servers fresh c alive free;
      clients = refl;
      finds = λ other. lookup-put app.objects app.servers fresh c other alive free;
    }
