-- ===== src/Core/Catalogs.antt =====
-- core/catalogs.py: the public catalogs of codes, and the labels that are shown for them.
use licitaciones_mcp.Base.{
  Option, none, some, [], ◌∷◌, take, non_empty, if◌then◌else◌, list_eq, nat_eq,
}
use licitaciones_mcp.Base.Dict.{Dict, lookup}
use licitaciones_mcp.Base.Text.{Text, codes}
use licitaciones_mcp.Base.Unicode.{Unicode}
use licitaciones_mcp.Core.Models.{
  TenderSource, TenderStatus, planned, open_, closed, awarded, cancelled, unknown, or_empty,
  status_eq, source_value, status_value,
}
use licitaciones_mcp.Core.Normalization.{normalize_text}

unfoldable pub placsp_notice_types : Dict Text Text
placsp_notice_types =
    (codes "PRE", codes "Anuncio previo")
    ∷ (codes "PUB", codes "En plazo")
    ∷ (codes "EV", codes "Pendiente de adjudicación")
    ∷ (codes "ADJ", codes "Adjudicada")
    ∷ (codes "RES", codes "Resuelta")
    ∷ (codes "ANUL", codes "Anulada")
    ∷ (codes "DES", codes "Desierta")
    ∷ []

unfoldable pub placsp_notice_status : Dict Text TenderStatus
placsp_notice_status =
    (codes "PRE", planned)
    ∷ (codes "PUB", open_)
    ∷ (codes "EV", closed)
    ∷ (codes "ADJ", awarded)
    ∷ (codes "RES", closed)
    ∷ (codes "ANUL", cancelled)
    ∷ (codes "DES", closed)
    ∷ []

unfoldable pub placsp_contract_types : Dict Text Text
placsp_contract_types =
    (codes "1", codes "Suministros")
    ∷ (codes "2", codes "Servicios")
    ∷ (codes "3", codes "Obras")
    ∷ (codes "21", codes "Gestión de servicios públicos")
    ∷ (codes "22", codes "Concesión de servicios")
    ∷ (codes "31", codes "Concesión de obras públicas")
    ∷ (codes "32", codes "Concesión de obras")
    ∷ (codes "40", codes "Colaboración público-privada")
    ∷ (codes "7", codes "Administrativo especial")
    ∷ (codes "8", codes "Privado")
    ∷ (codes "50", codes "Patrimonial")
    ∷ (codes "999", codes "Otros")
    ∷ []

unfoldable pub placsp_procedure_types : Dict Text Text
placsp_procedure_types =
    (codes "1", codes "Abierto")
    ∷ (codes "2", codes "Restringido")
    ∷ (codes "3", codes "Negociado sin publicidad")
    ∷ (codes "4", codes "Negociado con publicidad")
    ∷ (codes "5", codes "Diálogo competitivo")
    ∷ (codes "6", codes "Contrato menor")
    ∷ (codes "7", codes "Derivado de acuerdo marco")
    ∷ (codes "8", codes "Concurso de proyectos")
    ∷ (codes "100", codes "Normas internas")
    ∷ (codes "999", codes "Otros")
    ∷ []

unfoldable pub placsp_dataset_kinds : Dict Text Text
placsp_dataset_kinds =
    (codes "licitaciones", codes "Licitaciones sin menores")
    ∷ (codes "agregacion", codes "Licitaciones agregadas sin menores")
    ∷ (codes "menores", codes "Contratos menores")
    ∷ (codes "encargos", codes "Encargos a medios propios")
    ∷ (codes "consultas", codes "Consultas preliminares de mercado")
    ∷ []

unfoldable pub cpv_sectors : Dict Text Text
cpv_sectors =
    (codes "03", codes "Productos agrícolas, ganaderos, pesca y forestales")
    ∷ (codes "09", codes "Derivados del petróleo, combustibles, electricidad y otras energías")
    ∷ (codes "14", codes "Minería, metales básicos y productos afines")
    ∷ (codes "15", codes "Alimentos, bebidas, tabaco y productos afines")
    ∷ (codes "16", codes "Maquinaria agrícola")
    ∷ (codes "18", codes "Ropa, calzado, artículos de viaje y accesorios")
    ∷ (codes "19", codes "Cuero, textiles, plástico y caucho")
    ∷ (codes "22", codes "Impresos y productos relacionados")
    ∷ (codes "24", codes "Productos químicos")
    ∷ (codes "30", codes "Máquinas, equipos y material de oficina e informática")
    ∷ (codes "31", codes "Maquinaria, aparatos y material eléctrico")
    ∷ (codes "32", codes "Equipos de radio, televisión, comunicaciones y telecomunicaciones")
    ∷ (codes "33", codes "Equipos médicos, farmacéuticos y de higiene personal")
    ∷ (codes "34", codes "Equipos de transporte y productos auxiliares")
    ∷ (codes "35", codes "Equipos de seguridad, extinción, policía y defensa")
    ∷ (codes "37", codes "Instrumentos musicales, deporte, juegos y artesanía")
    ∷ (codes "38", codes "Equipos de laboratorio, ópticos y de precisión")
    ∷ (codes "39", codes "Mobiliario, equipamiento doméstico y limpieza")
    ∷ (codes "41", codes "Agua recogida y depurada")
    ∷ (codes "42", codes "Maquinaria industrial")
    ∷ (codes "43", codes "Maquinaria para minería, canteras, construcción y obras públicas")
    ∷ (codes "44", codes "Estructuras, materiales y productos de construcción")
    ∷ (codes "45", codes "Trabajos de construcción")
    ∷ (codes "48", codes "Paquetes de software y sistemas de información")
    ∷ (codes "50", codes "Servicios de reparación y mantenimiento")
    ∷ (codes "51", codes "Servicios de instalación")
    ∷ (codes "55", codes "Hostelería, restauración y comercio al por menor")
    ∷ (codes "60", codes "Servicios de transporte")
    ∷ (codes "63", codes "Servicios complementarios y auxiliares de transporte")
    ∷ (codes "64", codes "Correos y telecomunicaciones")
    ∷ (codes "65", codes "Servicios públicos")
    ∷ (codes "66", codes "Servicios financieros y de seguros")
    ∷ (codes "70", codes "Servicios inmobiliarios")
    ∷ (codes "71", codes "Arquitectura, construcción, ingeniería e inspección")
    ∷ (codes "72", codes "Servicios TI: consultoría, software, internet y apoyo")
    ∷ (codes "73", codes "Investigación y desarrollo")
    ∷ (codes "75", codes "Administración pública, defensa y seguridad social")
    ∷ (codes "76", codes "Servicios relacionados con petróleo y gas")
    ∷ (codes "77", codes "Servicios agrícolas, forestales, hortícolas y acuícolas")
    ∷ (codes "79", codes "Servicios a empresas: derecho, marketing, consultoría y selección")
    ∷ (codes "80", codes "Enseñanza y formación")
    ∷ (codes "85", codes "Salud y asistencia social")
    ∷ (codes "90", codes "Alcantarillado, basura, limpieza y medio ambiente")
    ∷ (codes "92", codes "Servicios recreativos, culturales y deportivos")
    ∷ (codes "98", codes "Otros servicios comunitarios, sociales y personales")
    ∷ []

unfoldable pub status_labels : Dict TenderStatus Text
status_labels =
    (planned, codes "Planificada")
    ∷ (open_, codes "Abierta")
    ∷ (closed, codes "Cerrada")
    ∷ (awarded, codes "Adjudicada")
    ∷ (cancelled, codes "Cancelada")
    ∷ (unknown, codes "Desconocida")
    ∷ []

-- `TABLE.get(key) or normalize_text(value)`
label_or_text : Dict Text Text → Text → Option Text → Option Text
label_or_text table key value =
    if non_empty (or_empty (lookup key table)) then lookup key table else normalize_text value

module _ (U : Unicode) where
  unfoldable pub catalog_key : Option Text → Text
  catalog_key value = U.upper (or_empty (normalize_text value))

  unfoldable pub placsp_notice_label : Option Text → Option Text
  unfolding label_or_text catalog_key placsp_notice_types
  placsp_notice_label value = label_or_text placsp_notice_types (catalog_key value) value

  unfoldable pub placsp_contract_type_label : Option Text → Option Text
  unfolding label_or_text catalog_key placsp_contract_types
  placsp_contract_type_label value = label_or_text placsp_contract_types (catalog_key value) value

  unfoldable pub placsp_procedure_type_label : Option Text → Option Text
  unfolding label_or_text catalog_key placsp_procedure_types
  placsp_procedure_type_label value = label_or_text placsp_procedure_types (catalog_key value) value

  unfoldable pub dataset_kind_label : Option Text → Option Text
  unfolding label_or_text catalog_key placsp_dataset_kinds
  dataset_kind_label value = label_or_text placsp_dataset_kinds (U.lower (catalog_key value)) value

  unfoldable pub source_label : TenderSource → Text
  source_label source = U.upper (source_value source)

unfoldable pub status_label : TenderStatus → Text
unfolding status_labels
status_label status = elim (lookup status status_labels) [
  | some label ↦ label
  | none ↦ status_value status
]

unfoldable pub cpv_sector_label : Text → Option Text
cpv_sector_label prefix = lookup (take 2 prefix) cpv_sectors
