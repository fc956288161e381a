-- ===== src/Cli/Run/Requests.antt =====
-- src/bin/swupdate-client.rs: the request of `install`, as the daemon sees it.
use swupdate_rs.Text.{Text}
use swupdate_rs.Types.Request.Fields.{see, see-to_raw}
use swupdate_rs.Wire.Message.Texts.{IsName}
use swupdate_rs.Cli.Args.{InstallArgs, source_of_arg}
use swupdate_rs.Cli.Run.{request_of, describe}
use swupdate_rs.Text.Lossy.{fit}
use swupdate_rs.Common.{if◌then◌else◌, refl, ◌≡◌, ap, ◌∙◌, true, false, none, [], Bool, ◌∷◌}
use swupdate_rs.Types.RunMode as RunMode
use swupdate_rs.Types.Source as Source
use swupdate_rs.Types.Request as Request
use swupdate_rs.Types.Request.{InstallRequest, to_raw, with_source, with_mode, with_info}

-- The request of the arguments, with no condition left on the description.
request_of_lem :
    (args : InstallArgs)
    → request_of args ≡ record {
      source = source_of_arg args.source;
      mode = if args.dry_run then RunMode.dry_run else RunMode.default;
      info = args.info;
      software_set = none;
      running_mode = none;
      len = none;
      store_swu = true;
    }
unfolding request_of describe with_source with_mode with_info Request.new
request_of_lem args = go args.dry_run args.info
  where
    go :
        (dry_run : Bool) (info : Text)
        → (let req = describe info (with_source (source_of_arg args.source) Request.new) in
            if dry_run then with_mode RunMode.dry_run req else req)
          ≡ record {
            source = source_of_arg args.source;
            mode = if dry_run then RunMode.dry_run else RunMode.default;
            info = info;
            software_set = none;
            running_mode = none;
            len = none;
            store_swu = true;
          }
    go true [] = refl
    go false [] = refl
    go true (c ∷ s) = refl
    go false (c ∷ s) = refl

-- Where the description is a Rust text without NUL, the daemon sees in the request of `install` the
-- source that was named, a dry run exactly if it was asked for, the description cut to its field,
-- no software set, running mode or length, and the wish to keep the image.
pub see-request_of :
    (args : InstallArgs)
    → IsName args.info
    → see (to_raw (request_of args)) ≡ record {
      apiversion = 1;
      source = Source.to_wire (source_of_arg args.source);
      dry_run = if args.dry_run then 1 else 0;
      len = 0;
      info = fit 511 args.info;
      software_set = [];
      running_mode = [];
      disable_store_swu = 0;
    }
unfolding fit RunMode.to_wire
see-request_of args h =
    ap (λ req. see (to_raw req)) (request_of_lem args)
    ∙ see-to_raw _
        (record { info_name = h; software_set_name = (tt, tt); running_mode_name = (tt, tt) })
    ∙ ap
        (λ code. record {
          apiversion = 1;
          source = Source.to_wire (source_of_arg args.source);
          dry_run = code;
          len = 0;
          info = fit 511 args.info;
          software_set = [];
          running_mode = [];
          disable_store_swu = 0;
        })
        (mode_code args.dry_run)
  where
    mode_code :
        (dry_run : Bool)
        → RunMode.to_wire (if dry_run then RunMode.dry_run else RunMode.default)
          ≡ (if dry_run then 1 else 0)
    mode_code true = refl
    mode_code false = refl
