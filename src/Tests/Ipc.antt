-- ===== src/Tests/Ipc.antt =====
-- Requests and responses of a concrete service.
use iov_vehicle_tbox_prov.Base.{refl, [], ◌∷◌, Str, codes}
use iov_vehicle_tbox_prov.Json.{text}
use iov_vehicle_tbox_prov.Json.Documents.{document}
use iov_vehicle_tbox_prov.Json.Example.{example, example-IsLawful}
use iov_vehicle_tbox_prov.Dispatcher.{dispatch}
use iov_vehicle_tbox_prov.Dispatcher.Responses.{IsAnswered, dispatch_answers}
use iov_vehicle_tbox_prov.Tests.{inputs, ready, store, text_of, vin}

dispatch_answers_example :
    IsAnswered example example-IsLawful (dispatch example store inputs (codes "what") 2 [] ready).0
unfolding example
dispatch_answers_example =
    dispatch_answers example store example-IsLawful inputs (codes "what") 2 [] ready refl

-- The parameters `{"vin": ...}`.
abbrev pub vin_params : Str
vin_params = text_of (example.dump 0 (document example ((codes "vin", text vin) ∷ [])))
