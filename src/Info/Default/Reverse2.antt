-- ===== src/Info/Default/Reverse2.antt =====
-- lib/InfoModel.cpp: a part of the table that InfoModel::default5103 adds, in its order.
use libfc.Prelude.{ℕ, List, [], ◌∷◌, codes}

abbrev pub reverse_specs_2 : List (List ℕ)
reverse_specs_2 =
    codes "reversePostMCastOctetTotalCount(29305/175)<unsigned64>[8]"
    ∷ codes "reverseIcmpTypeIPv4(29305/176)<unsigned8>[1]"
    ∷ codes "reverseIcmpCodeIPv4(29305/177)<unsigned8>[1]"
    ∷ codes "reverseIcmpTypeIPv6(29305/178)<unsigned8>[1]"
    ∷ codes "reverseIcmpCodeIPv6(29305/179)<unsigned8>[1]"
    ∷ codes "reverseUdpSourcePort(29305/180)<unsigned16>[2]"
    ∷ codes "reverseUdpDestinationPort(29305/181)<unsigned16>[2]"
    ∷ codes "reverseTcpSourcePort(29305/182)<unsigned16>[2]"
    ∷ codes "reverseTcpDestinationPort(29305/183)<unsigned16>[2]"
    ∷ codes "reverseTcpSequenceNumber(29305/184)<unsigned32>[4]"
    ∷ codes "reverseTcpAcknowledgementNumber(29305/185)<unsigned32>[4]"
    ∷ codes "reverseTcpWindowSize(29305/186)<unsigned16>[2]"
    ∷ codes "reverseTcpUrgentPointer(29305/187)<unsigned16>[2]"
    ∷ codes "reverseTcpHeaderLength(29305/188)<unsigned8>[1]"
    ∷ codes "reverseIpHeaderLength(29305/189)<unsigned8>[1]"
    ∷ codes "reverseTotalLengthIPv4(29305/190)<unsigned16>[2]"
    ∷ codes "reversePayloadLengthIPv6(29305/191)<unsigned16>[2]"
    ∷ codes "reverseIpTTL(29305/192)<unsigned8>[1]"
    ∷ codes "reverseNextHeaderIPv6(29305/193)<unsigned8>[1]"
    ∷ codes "reverseMplsPayloadLength(29305/194)<unsigned32>[4]"
    ∷ codes "reverseIpDiffServCodePoint(29305/195)<unsigned8>[1]"
    ∷ codes "reverseIpPrecedence(29305/196)<unsigned8>[1]"
    ∷ codes "reverseFragmentFlags(29305/197)<unsigned8>[1]"
    ∷ codes "reverseOctetDeltaSumOfSquares(29305/198)<unsigned64>[8]"
    ∷ codes "reverseOctetTotalSumOfSquares(29305/199)<unsigned64>[8]"
    ∷ codes "reverseMplsTopLabelTTL(29305/200)<unsigned8>[1]"
    ∷ codes "reverseMplsLabelStackLength(29305/201)<unsigned32>[4]"
    ∷ codes "reverseMplsLabelStackDepth(29305/202)<unsigned32>[4]"
    ∷ codes "reverseMplsTopLabelExp(29305/203)<unsigned8>[1]"
    ∷ codes "reverseIpPayloadLength(29305/204)<unsigned32>[4]"
    ∷ codes "reverseUdpMessageLength(29305/205)<unsigned16>[2]"
    ∷ codes "reverseIsMulticast(29305/206)<unsigned8>[1]"
    ∷ codes "reverseIpv4IHL(29305/207)<unsigned8>[1]"
    ∷ codes "reverseIpv4Options(29305/208)<unsigned32>[4]"
    ∷ codes "reverseTcpOptions(29305/209)<unsigned64>[8]"
    ∷ codes "reversePaddingOctets(29305/210)<octetArray>[65535]"
    ∷ codes "reverseCollectorIPv4Address(29305/211)<ipv4Address>[4]"
    ∷ codes "reverseCollectorIPv6Address(29305/212)<ipv6Address>[16]"
    ∷ codes "reverseExportInterface(29305/213)<unsigned32>[4]"
    ∷ codes "reverseExportProtocolVersion(29305/214)<unsigned8>[1]"
    ∷ codes "reverseExportTransportProtocol(29305/215)<unsigned8>[1]"
    ∷ codes "reverseCollectorTransportPort(29305/216)<unsigned16>[2]"
    ∷ codes "reverseExporterTransportPort(29305/217)<unsigned16>[2]"
    ∷ codes "reverseTcpSynTotalCount(29305/218)<unsigned64>[8]"
    ∷ codes "reverseTcpFinTotalCount(29305/219)<unsigned64>[8]"
    ∷ codes "reverseTcpRstTotalCount(29305/220)<unsigned64>[8]"
    ∷ codes "reverseTcpPshTotalCount(29305/221)<unsigned64>[8]"
    ∷ codes "reverseTcpAckTotalCount(29305/222)<unsigned64>[8]"
    ∷ codes "reverseTcpUrgTotalCount(29305/223)<unsigned64>[8]"
    ∷ codes "reverseIpTotalLength(29305/224)<unsigned64>[8]"
    ∷ codes "reversePostNATSourceIPv4Address(29305/225)<ipv4Address>[4]"
    ∷ codes "reversePostNATDestinationIPv4Address(29305/226)<ipv4Address>[4]"
    ∷ codes "reversePostNAPTSourceTransportPort(29305/227)<unsigned16>[2]"
    ∷ codes "reversePostNAPTDestinationTransportPort(29305/228)<unsigned16>[2]"
    ∷ codes "reverseNatOriginatingAddressRealm(29305/229)<unsigned8>[1]"
    ∷ codes "reverseNatEvent(29305/230)<unsigned8>[1]"
    ∷ codes "reverseInitiatorOctets(29305/231)<unsigned64>[8]"
    ∷ codes "reverseResponderOctets(29305/232)<unsigned64>[8]"
    ∷ codes "reverseFirewallEvent(29305/233)<unsigned8>[1]"
    ∷ codes "reverseIngressVRFID(29305/234)<unsigned32>[4]"
    ∷ codes "reverseEgressVRFID(29305/235)<unsigned32>[4]"
    ∷ codes "reverseVRFname(29305/236)<string>[65535]"
    ∷ codes "reversePostMplsTopLabelExp(29305/237)<unsigned8>[1]"
    ∷ codes "reverseTcpWindowScale(29305/238)<unsigned16>[2]"
    ∷ codes "reverseBiflowDirection(29305/239)<unsigned8>[1]"
    ∷ codes "reverseEthernetHeaderLength(29305/240)<unsigned8>[1]"
    ∷ codes "reverseEthernetPayloadLength(29305/241)<unsigned16>[2]"
    ∷ codes "reverseEthernetTotalLength(29305/242)<unsigned16>[2]"
    ∷ codes "reverseDot1qVlanId(29305/243)<unsigned16>[2]"
    ∷ codes "reverseDot1qPriority(29305/244)<unsigned8>[1]"
    ∷ codes "reverseDot1qCustomerVlanId(29305/245)<unsigned16>[2]"
    ∷ codes "reverseDot1qCustomerPriority(29305/246)<unsigned8>[1]"
    ∷ codes "reverseMetroEvcId(29305/247)<string>[65535]"
    ∷ codes "reverseMetroEvcType(29305/248)<unsigned8>[1]"
    ∷ codes "reversePseudoWireId(29305/249)<unsigned32>[4]"
    ∷ codes "reversePseudoWireType(29305/250)<unsigned16>[2]"
    ∷ codes "reversePseudoWireControlWord(29305/251)<unsigned32>[4]"
    ∷ codes "reverseIngressPhysicalInterface(29305/252)<unsigned32>[4]"
    ∷ codes "reverseEgressPhysicalInterface(29305/253)<unsigned32>[4]"
    ∷ codes "reversePostDot1qVlanId(29305/254)<unsigned16>[2]"
    ∷ codes "reversePostDot1qCustomerVlanId(29305/255)<unsigned16>[2]"
    ∷ codes "reverseEthernetType(29305/256)<unsigned16>[2]"
    ∷ codes "reversePostIpPrecedence(29305/257)<unsigned8>[1]"
    ∷ codes "reverseCollectionTimeMilliseconds(29305/258)<dateTimeMilliseconds>[8]"
    ∷ codes "reverseExportSctpStreamId(29305/259)<unsigned16>[2]"
    ∷ codes "reverseMaxExportSeconds(29305/260)<dateTimeSeconds>[4]"
    ∷ codes "reverseMaxFlowEndSeconds(29305/261)<dateTimeSeconds>[4]"
    ∷ codes "reverseMessageMD5Checksum(29305/262)<octetArray>[65535]"
    ∷ codes "reverseMessageScope(29305/263)<unsigned8>[1]"
    ∷ codes "reverseMinExportSeconds(29305/264)<dateTimeSeconds>[4]"
    ∷ codes "reverseMinFlowStartSeconds(29305/265)<dateTimeSeconds>[4]"
    ∷ codes "reverseOpaqueOctets(29305/266)<octetArray>[65535]"
    ∷ codes "reverseSessionScope(29305/267)<unsigned8>[1]"
    ∷ codes "reverseMaxFlowEndMicroseconds(29305/268)<dateTimeMicroseconds>"
    ∷ codes "reverseMaxFlowEndMilliseconds(29305/269)<dateTimeMilliseconds>"
    ∷ codes "reverseMaxFlowEndNanoseconds(29305/270)<dateTimeNanoseconds>"
    ∷ codes "reverseMinFlowStartMicroseconds(29305/271)<dateTimeMicroseconds>"
    ∷ codes "reverseMinFlowStartMilliseconds(29305/272)<dateTimeMilliseconds>"
    ∷ codes "reverseMinFlowStartNanoseconds(29305/273)<dateTimeNanoseconds>"
    ∷ codes "reverseCollectorCertificate(29305/274)<octetArray>[65535]"
    ∷ codes "reverseExporterCertificate(29305/275)<octetArray>[65535]"
    ∷ codes "reverseDataRecordsReliability(29305/276)<boolean>[1]"
    ∷ codes "reverseObservationPointType(29305/277)<unsigned8>[1]"
    ∷ codes "reverseConnectionCountNew(29305/278)<unsigned32>[4]"
    ∷ codes "reverseConnectionSumDuration(29305/279)<unsigned64>[8]"
    ∷ codes "reverseConnectionTransactionId(29305/280)<unsigned64>[8]"
    ∷ codes "reversePostNATSourceIPv6Address(29305/281)<ipv6Address>[16]"
    ∷ codes "reversePostNATDestinationIPv6Address(29305/282)<ipv6Address>[16]"
    ∷ codes "reverseNatPoolId(29305/283)<unsigned32>[4]"
    ∷ codes "reverseNatPoolName(29305/284)<string>[65535]"
    ∷ codes "reverseAnonymizationFlags(29305/285)<unsigned16>[2]"
    ∷ codes "reverseAnonymizationTechnique(29305/286)<unsigned16>[2]"
    ∷ codes "reverseInformationElementIndex(29305/287)<unsigned16>[2]"
    ∷ codes "reverseP2PTechnology(29305/288)<string>[65535]"
    ∷ codes "reverseTunnelTechnology(29305/289)<string>[65535]"
    ∷ codes "reverseEncryptedTechnology(29305/290)<string>[65535]"
    ∷ codes "reverseBgpValidityState(29305/294)<unsigned8>[1]"
    ∷ codes "reverseIPSecSPI(29305/295)<unsigned32>[4]"
    ∷ codes "reverseGreKey(29305/296)<unsigned32>[4]"
    ∷ codes "reverseNatType(29305/297)<unsigned8>[1]"
    ∷ codes "reverseInitiatorPackets(29305/298)<unsigned64>[8]"
    ∷ codes "reverseResponderPackets(29305/299)<unsigned64>[8]"
    ∷ codes "reverseObservationDomainName(29305/300)<string>[65535]"
    ∷ codes "reverseSelectionSequenceId(29305/301)<unsigned64>[8]"
    ∷ codes "reverseSelectorId(29305/302)<unsigned64>[8]"
    ∷ codes "reverseInformationElementId(29305/303)<unsigned16>[2]"
    ∷ codes "reverseSelectorAlgorithm(29305/304)<unsigned16>[2]"
    ∷ []
